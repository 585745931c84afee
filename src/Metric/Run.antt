-- ===== src/Metric/Run.antt =====
-- Code that sends metrics on a channel and may panic: the metrics sent, and how it ended. The receiver
-- drains the channel, so a send never blocks for ever.
use solace_prometheus_export.Prelude.{
  ◌≡◌, refl, Option, none, some, List, [], ◌∷◌, ◌++◌, append_assoc, All, All-append,
}
use solace_prometheus_export.Metric.{PrometheusMetric}

-- `unfinished` stands for a loop that had not ended within its fuel.
pub data Outcome (A : Type 0) : Type 0 where
  done : A → Outcome A
  panicked : Outcome A
  unfinished : Outcome A

pub record Run (F : Type 0) (A : Type 0) : Type 0 where
  pub sent : List (PrometheusMetric F)
  pub result : Outcome A

module _ {F : Type 0} where
  abbrev pub pure : {A : Type 0} → A → Run F A
  pure a = record { sent = []; result = done a }

  abbrev pub panic : {A : Type 0} → Run F A
  panic = record { sent = []; result = panicked }

  abbrev pub out_of_fuel : {A : Type 0} → Run F A
  out_of_fuel = record { sent = []; result = unfinished }

  -- ch <- m
  abbrev pub send : PrometheusMetric F → Run F (Unit {0})
  send m = record { sent = m ∷ []; result = done tt }

  -- ch <- semp.NewMetric(…)
  abbrev pub send_new : Option (PrometheusMetric F) → Run F (Unit {0})
  send_new none = panic
  send_new (some m) = send m

module _ {F A B : Type 0} where
  abbrev pub continue : List (PrometheusMetric F) → Outcome A → (A → Run F B) → Run F B
  continue sent panicked f = record { sent = sent; result = panicked }
  continue sent unfinished f = record { sent = sent; result = unfinished }
  continue sent (done a) f = record { sent = sent ++ (f a).sent; result = (f a).result }

  infixl 5 ◌>>=◌
  unfoldable pub ◌>>=◌ : Run F A → (A → Run F B) → Run F B
  m >>= f = continue m.sent m.result f

module _ {F B : Type 0} where
  infixl 5 ◌>>◌
  abbrev pub ◌>>◌ : Run F (Unit {0}) → Run F B → Run F B
  m >> k = m >>= λ _. k

-- Every metric that was sent satisfies `P`.
abbrev pub AllSent : {F A : Type 0} → (PrometheusMetric F → Type 0) → Run F A → Type 0
AllSent P m = All P m.sent

module _ {F A B : Type 0} (P : PrometheusMetric F → Type 0) where
  AllSent-continue :
      (sent : List (PrometheusMetric F)) (r : Outcome A) (f : A → Run F B)
      → All P sent
      → ((a : A) → AllSent P (f a))
      → AllSent P (continue sent r f)
  AllSent-continue sent panicked f h k = h
  AllSent-continue sent unfinished f h k = h
  AllSent-continue sent (done a) f h k = All-append P sent (f a).sent h (k a)

  pub AllSent-bind :
      (m : Run F A) (f : A → Run F B)
      → AllSent P m
      → ((a : A) → AllSent P (f a))
      → AllSent P (m >>= f)
  unfolding ◌>>=◌
  AllSent-bind m f h k = AllSent-continue m.sent m.result f h k

module _ {F A B : Type 0} where
  -- A run that returns goes on with what follows.
  pub bind-returns :
      (m : Run F A) (a : A) (f : A → Run F B)
      → m.result ≡ done a
      → (m >>= f) ≡ record { sent = m.sent ++ (f a).sent; result = (f a).result }
  unfolding ◌>>=◌
  bind-returns m a f h = rw h

  pub pure-bind : (a : A) (f : A → Run F B) → (pure a >>= f) ≡ f a
  unfolding ◌>>=◌
  pure-bind a f = refl

  pub panic-bind : (f : A → Run F B) → (panic {F = F} {A = A} >>= f) ≡ panic
  unfolding ◌>>=◌
  panic-bind f = refl

module _ {F A B C : Type 0} where
  continue_assoc :
      (sent : List (PrometheusMetric F)) (r : Outcome A) (f : A → Run F B) (g : B → Run F C)
      → (continue sent r f >>= g) ≡ continue sent r (λ a. f a >>= g)
  continue_assoc sent panicked f g = unfold ◌>>=◌ in refl
  continue_assoc sent unfinished f g = unfold ◌>>=◌ in refl
  continue_assoc sent (done a) f g = unfold ◌>>=◌ in continue_more sent (f a).sent (f a).result g
    where
      continue_more :
          (xs ys : List (PrometheusMetric F)) (r : Outcome B) (g : B → Run F C)
          → continue (xs ++ ys) r g
            ≡ record { sent = xs ++ (continue ys r g).sent; result = (continue ys r g).result }
      continue_more xs ys panicked g = refl
      continue_more xs ys unfinished g = refl
      continue_more xs ys (done b) g = rw append_assoc

  pub bind_assoc :
      (m : Run F A) (f : A → Run F B) (g : B → Run F C) → (m >>= f >>= g) ≡ (m >>= λ a. f a >>= g)
  unfolding ◌>>=◌
  bind_assoc m f g = continue_assoc m.sent m.result f g
