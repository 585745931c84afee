-- ===== src/Semp.antt =====
-- The SEMP client: internal/semp/semp.struct.go, http.go and internal/semp/types/common.go, and the
-- loop that every paged scrape of internal/semp writes out. The HTTP client and the decoder of a reply
-- are parameters; a broker may answer each request differently, so the page number is an argument too.
pub mod GoLib
pub mod Samples
pub mod Blocks
pub mod Sound
pub mod Fit
pub mod Safe
pub mod Distinct
pub mod Pages
pub mod Getters
pub mod V2
pub mod Scraped
pub mod Complete
pub mod SpoolQuota
use mathlib.Core.Option
use solace_prometheus_export.Prelude.{
  ℕ, zero, suc, ◌+◌, String, Bool, true, false, ◌||◌, Option, none, some, List, [], ◌∷◌, ◌==◌, ltb,
  leb, if◌then◌else◌,
}
use Prim.Native.String.{◌++◌ as ◌<>◌}
use solace_prometheus_export.Prelude.Int.{ℤ, pos, negsuc}
use solace_prometheus_export.Prelude.Result.{Result, ok, err, ◌>>=◌, wrap_err}
use solace_prometheus_export.Metric.Run
use solace_prometheus_export.Metric.Run.{Run, pure, out_of_fuel}

-- http.Request, as far as the program sets it.
pub record Request : Type 0 where
  pub method : String
  pub uri : String
  pub headers : List (String × String)
  pub body : String

pub record Response (Body : Type 0) : Type 0 where
  pub status_code : ℕ
  pub body : Body

-- net/http as the program calls it. `do_request page` is the answer to the request made for that page.
pub record Http (Body : Type 0) : Type 0 where
  pub new_request : String → String → String → Result String Request
  pub do_request : ℕ → Request → Result String (Response Body)
  pub status_error : ℕ → String
  pub read_all : Body → Result String String

pub record Semp : Type 0 where
  pub http_request_visitor : Option (Request → Request)
  pub broker_uri : String
  pub log_broker_to_slow_warnings : Bool
  pub is_hw_broker : Bool

-- if semp.httpRequestVisitor != nil { semp.httpRequestVisitor(req) }
abbrev pub visit : Option (Request → Request) → Request → Request
visit none req = req
visit (some f) req = f req

module _ {Body : Type 0} (http : Http Body) where
  -- The test of the status, with the least status that is refused besides those below 200.
  check_status : ℕ → Response Body → Result String Body
  check_status limit resp =
      if ltb resp.status_code 200 || leb limit resp.status_code
      then err (http.status_error resp.status_code)
      else ok resp.body

  unfoldable pub post_http : Semp → String → String → ℕ → Result String Body
  unfolding check_status
  post_http semp uri body page = do
    req ← http.new_request "POST" uri body
    resp ← http.do_request page (visit semp.http_request_visitor req)
    check_status 300 resp

  unfoldable pub get_http_bytes : Semp → String → ℕ → Result String String
  unfolding check_status
  get_http_bytes semp uri page = do
    req ← http.new_request "GET" uri ""
    resp ← http.do_request page (visit semp.http_request_visitor req)
    body ← check_status 500 resp
    http.read_all body

pub record ExecuteResult : Type 0 where
  pub result : String
  pub reason : String

-- ExecuteResult.OK, with `none` for a nil error
unfoldable pub execute_ok : ExecuteResult → Option String
execute_ok e = if e.result == "ok" then none else some ("unexpected result: " <> e.reason)

-- The test that the other scrapes write out.
unfoldable pub execute_ok_see_log : ExecuteResult → Option String
execute_ok_see_log e =
    if e.result == "ok"
    then none
    else some ("unexpected result: " <> (e.reason <> ". see log for further details"))

-- A decoded reply: the part below `rpc`, the `more-cookie` and the `execute-result`.
pub record Target (P : Type 0) : Type 0 where
  pub payload : P
  pub more_cookie : String
  pub execute_result : ExecuteResult

-- The results of a scrape: the value of `up` and the error.
abbrev pub Status : Type 0
Status = ℤ × Option String

-- A failed step: the value of `up` and the text of the error.
abbrev pub Failure : Type 0
Failure = ℤ × String

abbrev pub checked : {P : Type 0} → Target P → Option String → Result Failure (Target P)
checked target none = ok target
checked target (some e) = err (pos 0, e)

-- Goes on with a decoded page, or returns the failure.
abbrev pub on_page :
    {F P : Type 0} → Result Failure (Target P) → (Target P → Run F Status) → Run F Status
on_page (err (up, e)) k = pure (up, some e)
on_page (ok target) k = k target

module _ {Body P : Type 0} (http : Http Body) (decode : Body → Result String (Target P))
    (check : ExecuteResult → Option String) where
  -- One request: an error of HTTP is -1, one of the decoder or of the broker is 0.
  unfoldable pub read_page : Semp → String → ℕ → Result Failure (Target P)
  read_page semp command page = do
    body ←
        wrap_err (λ e. (negsuc 0, e))
          (post_http http semp (semp.broker_uri <> "/SEMP") command page)
    target ← wrap_err (λ e. (pos 0, e)) (decode body)
    checked target (check target.execute_result)

module _ {F Body P : Type 0} (http : Http Body) (decode : Body → Result String (Target P))
    (check : ExecuteResult → Option String) where
  -- A scrape of one request.
  unfoldable pub scrape_once : Semp → String → (P → Run F (Unit {0})) → Run F Status
  scrape_once semp command emit =
      on_page (read_page http decode check semp command 1)
        (λ target. Run.◌>>=◌ (emit target.payload) (λ _. pure (pos 1, none)))

module _ {F P : Type 0} (read : String → ℕ → Result Failure (Target P)) where
  -- for command := …; command != ""; { … }, where `read` makes the request for a page, `items` is the
  -- loop over a page and `s` its variable.
  unfoldable pub loop_pages : {S : Type 0} → (S → P → Run F S) → ℕ → ℕ → S → String → Run F Status
  loop_pages items zero page s command = out_of_fuel
  loop_pages items (suc fuel) page s command =
      let more = on_page (read command page) (λ target.
        Run.◌>>=◌ (items s target.payload)
          (λ s'. loop_pages items fuel (page + 1) s' target.more_cookie)) in
      if command == "" then pure (pos 1, none) else more

module _ {F Body P : Type 0} (http : Http Body) (decode : Body → Result String (Target P))
    (check : ExecuteResult → Option String) where
  unfoldable pub scrape_pages :
      {S : Type 0} → Semp → (S → P → Run F S) → ℕ → ℕ → S → String → Run F Status
  scrape_pages semp items fuel page s command =
      loop_pages (read_page http decode check semp) items fuel page s command
