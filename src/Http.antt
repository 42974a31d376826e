-- ===== src/Http.antt =====
-- net/http as the source uses it: requests, responses, and a client that sends one after another.
use google_find_my_tools_go.Prelude.{
  ℕ, List, Option, none, some, Result, ok, err, Bool, ◌&&◌, leb, ltb,
}
use google_find_my_tools_go.GoErrors.{GoError}

-- A text is the list of its bytes. A header and a cookie have a name and a value.
pub record Request : Type 0 where
  pub method : List ℕ
  pub url : List ℕ
  pub headers : List (List ℕ × List ℕ)
  pub cookies : List (List ℕ × List ℕ)
  pub body : List ℕ

-- resp.StatusCode and what io.ReadAll makes of resp.Body.
pub record Response : Type 0 where
  pub status : ℕ
  pub body : Result GoError (List ℕ)

-- What stands outside: whether a URL can be made a request of (`some` error if not), and the server
-- and the network, which have a state.
pub record Network {ℓ} (S : Type ℓ) : Type ℓ where
  pub url_error : List ℕ → Option GoError
  pub send : S → Request → S × Result GoError Response

-- What stopped a request before there was an answer, and while its body was read.
pub data Failure : Type 0 where
  bad_request not_sent unread : GoError → Failure

-- http.NewRequestWithContext and hc.Do.
module _ {ℓ} {S : Type ℓ} (net : Network S) where
  abbrev pub sent_or_failed : S × Result GoError Response → S × Result Failure Response
  sent_or_failed (s, ok r) = (s, ok r)
  sent_or_failed (s, err e) = (s, err (not_sent e))

  abbrev pub request_or_failed : S → Request → Option GoError → S × Result Failure Response
  request_or_failed s request (some e) = (s, err (bad_request e))
  request_or_failed s request none = sent_or_failed (net.send s request)

  unfoldable pub do_request : S → Request → S × Result Failure Response
  do_request s request = request_or_failed s request (net.url_error request.url)

-- io.ReadAll(resp.Body)
abbrev pub read_result : Result GoError (List ℕ) → Result Failure (List ℕ)
read_result (ok bytes) = ok bytes
read_result (err e) = err (unread e)

-- resp.StatusCode >= 200 && resp.StatusCode < 300
abbrev pub is_success : ℕ → Bool
is_success status = leb 200 status && ltb status 300
