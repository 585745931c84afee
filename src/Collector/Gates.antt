-- ===== src/Collector/Gates.antt =====
-- Which targets reach the broker.
use solace_prometheus_export.Prelude.{
  String, ◌≡◌, refl, Bool, true, false, ◌⊎◌, inl, inr, List, [], ◌∷◌, arith, all, ap, sym, ◌∙◌,
}
use solace_prometheus_export.DataSource.{DataSource}
use solace_prometheus_export.Collector.Dispatch.{
  CollectConfig, Scrapes, dispatch, kind_of, platform, Platform, Kind, refused, scope_error,
  on_platform, kind_names,
}

-- The targets that docs/CONFIG.md reserves to one kind of broker.
abbrev pub hardware_targets : List String
hardware_targets =
    "Disk" ∷ "DiskV1" ∷ "Raid" ∷ "RaidV1" ∷ "InterfaceHW" ∷ "InterfaceHWV1" ∷ "Alarm" ∷ "AlarmV1"
    ∷ "Environment" ∷ "EnvironmentV1" ∷ "Hardware" ∷ "HardwareV1" ∷ "ClockDetail" ∷ "ClockDetailV1"
    ∷ []

abbrev pub software_targets : List String
software_targets = "Health" ∷ "HealthV1" ∷ "StorageElement" ∷ "StorageElementV1" ∷ []

abbrev pub OneOf : String → List String → Type 0
OneOf s [] = ⊥
OneOf s (t ∷ ts) = (s ≡ t) ⊎ OneOf s ts

all-OneOf :
    (p : String → Bool) (s : String) (ts : List String) → all p ts ≡ true → OneOf s ts → p s ≡ true
all-OneOf p s [] h m = absurd m
all-OneOf p s (t ∷ ts) h (inl e) = ap p e ∙ ground arith
all-OneOf p s (t ∷ ts) h (inr m) = all-OneOf p s ts (ground arith) m

abbrev is_hardware : Platform → Bool
is_hardware Platform.hardware = true
is_hardware _ = false

abbrev is_software : Platform → Bool
is_software Platform.software = true
is_software _ = false

hardware_platform : all (λ n. is_hardware (platform (kind_of n))) hardware_targets ≡ true
unfolding platform kind_of kind_names
hardware_platform = refl

software_platform : all (λ n. is_software (platform (kind_of n))) software_targets ≡ true
unfolding platform kind_of kind_names
software_platform = refl

module _ {F : Type 0} (scrapes : Scrapes F) (conf : CollectConfig) where
  on_hardware :
      (p : Platform) (k : Kind) (ds : DataSource)
      → is_hardware p ≡ true
      → conf.is_hw_broker ≡ false
      → on_platform scrapes conf p k ds ≡ refused (scope_error "Hardware only" ds.name)
  unfolding on_platform
  on_hardware Platform.hardware k ds h e = rw e
  on_hardware _ k ds h e = ground arith

  on_software :
      (p : Platform) (k : Kind) (ds : DataSource)
      → is_software p ≡ true
      → conf.is_hw_broker ≡ true
      → on_platform scrapes conf p k ds ≡ refused (scope_error "Software only" ds.name)
  unfolding on_platform
  on_software Platform.software k ds h e = rw e
  on_software _ k ds h e = ground arith

  -- A target on the wrong kind of broker, and the scope that its error names.
  abbrev pub Misplaced : DataSource → String → Type 0
  Misplaced ds scope =
      OneOf ds.name hardware_targets × (conf.is_hw_broker ≡ false) × (scope ≡ "Hardware only")
      ⊎ OneOf ds.name software_targets × (conf.is_hw_broker ≡ true) × (scope ≡ "Software only")

  -- On a software broker a target that the documentation reserves to appliances, and on an appliance
  -- one that it reserves to software brokers, is refused with an error that names it: no scrape is
  -- made, and nothing is sent for it before its `up`.
  pub dispatch-refused :
      (ds : DataSource) (scope : String)
      → Misplaced ds scope
      → dispatch scrapes conf ds ≡ refused (scope_error scope ds.name)
  unfolding dispatch
  dispatch-refused ds scope (inl (m, e, s)) =
      on_hardware _ _ ds
        (all-OneOf (λ n. is_hardware (platform (kind_of n))) ds.name hardware_targets
          hardware_platform m)
        e
      ∙ ap (λ s. refused (scope_error s ds.name)) (sym s)
  dispatch-refused ds scope (inr (m, e, s)) =
      on_software _ _ ds
        (all-OneOf (λ n. is_software (platform (kind_of n))) ds.name software_targets
          software_platform m)
        e
      ∙ ap (λ s. refused (scope_error s ds.name)) (sym s)

  -- The item filter of a ClientMessageSpoolStats target has no effect, and its VPN filter is handed to
  -- the scrape in place of the client's name.
  pub client_message_spool_stats_filter :
      (ds : DataSource) (item_filter : String)
      → OneOf ds.name ("ClientMessageSpoolStats" ∷ "ClientMessageSpoolStatsV1" ∷ [])
      → (dispatch scrapes conf (record ds { item_filter = item_filter }) ≡ dispatch scrapes conf ds)
        × (dispatch scrapes conf ds
            ≡ scrapes.get_client_message_spool_stats_semp1 ds.vpn_filter conf.semp_page_size)
  client_message_spool_stats_filter ds item_filter m =
      (spool (record ds { item_filter = item_filter }) m ∙ sym (spool ds m), spool ds m)
    where
      spool_of :
          (k : Kind) (d : DataSource)
          → k ≡ Kind.client_message_spool_stats
          → on_platform scrapes conf (platform k) k d
            ≡ scrapes.get_client_message_spool_stats_semp1 d.vpn_filter conf.semp_page_size
      spool_of k d e = unfold on_platform platform in rw e

      spool :
          (d : DataSource)
          → OneOf d.name ("ClientMessageSpoolStats" ∷ "ClientMessageSpoolStatsV1" ∷ [])
          → dispatch scrapes conf d
            ≡ scrapes.get_client_message_spool_stats_semp1 d.vpn_filter conf.semp_page_size
      spool d (inl e) =
          unfold dispatch in
          spool_of (kind_of d.name) d (ap kind_of e ∙ unfold kind_of kind_names in refl)
      spool d (inr (inl e)) =
          unfold dispatch in
          spool_of (kind_of d.name) d (ap kind_of e ∙ unfold kind_of kind_names in refl)
      spool d (inr (inr m)) = absurd m
