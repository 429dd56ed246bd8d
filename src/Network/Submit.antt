-- ===== src/Network/Submit.antt =====
-- src/network/submitter.cpp: how the answer to POST /verify is read, and what `submit` and `probe`
-- make of it. The HTTP exchange is an argument, its response.
use xnminer.Base.{
  ℕ, ◌+◌, ℤ, pos, negsuc, ◌++◌, to_decimal, eqb_ℤ, leb_ℤ, ltb_ℤ, Bool, true, false, not, ◌&&◌, ◌||◌,
  List, [], ◌∷◌, map, Text, codes, contains, is_empty, is_space, to_lower, any, take, if◌then◌else◌,
}
use xnminer.Common.{BlockHit, SubmitResult}
pub mod Laws

abbrev pub lower : Text → Text
lower = map to_lower

-- `l.find(t) != npos` for the text in lower case.
unfoldable pub mentions : Text → Text → Bool
mentions body t = contains (lower body) t

unfoldable pub is_2xx : ℤ → Bool
is_2xx status = leb_ℤ (pos 200) status && ltb_ℤ status (pos 300)

unfoldable pub submit_accepted : ℤ → Text → Bool
submit_accepted status body = is_2xx status || mentions body (codes "already exists")

unfoldable pub is_difficulty_mismatch : ℤ → Text → Bool
is_difficulty_mismatch status body =
    not (eqb_ℤ status (pos 0))
    && (mentions body (codes "hash does not contain 'm=")
        || (mentions body (codes "does not contain") && mentions body (codes "m="))
        || (mentions body (codes "memory_cost") && mentions body (codes "does not contain")))

unfoldable pub is_pool_shed : ℤ → Text → Bool
is_pool_shed status body =
    not (is_difficulty_mismatch status body)
    && (eqb_ℤ status (pos 401) || eqb_ℤ status (pos 429))
    && not (any (λ c. not (is_space c)) body)

unfoldable pub is_xuni_window_reject : ℤ → Text → Bool
is_xuni_window_reject status body =
    not (eqb_ℤ status (pos 0))
    && (mentions body (codes "outside of time window")
        || mentions body (codes "outside of proper time frame")
        || mentions body (codes "time frame")
        || mentions body (codes "time window"))

unfoldable pub is_transient_submit_failure : ℤ → Text → Bool
is_transient_submit_failure status body =
    eqb_ℤ status (pos 0)
    || mentions body (codes "timed out")
    || mentions body (codes "timeout")
    || mentions body (codes "connection")

unfoldable pub is_pool_hold : ℤ → Text → Bool
is_pool_hold status body =
    not (is_difficulty_mismatch status body)
    && (eqb_ℤ status (pos 401)
        || eqb_ℤ status (pos 403)
        || eqb_ℤ status (pos 429)
        || mentions body (codes "hash verification failed"))

unfoldable pub counts_as_reject : ℤ → Text → Bool
counts_as_reject status body =
    not (submit_accepted status body)
    && not (is_difficulty_mismatch status body)
    && not (is_xuni_window_reject status body)
    && not (is_transient_submit_failure status body)
    && not (is_pool_hold status body)

-- `std::to_string` of an `int`.
unfoldable pub int_text : ℤ → Text
int_text (pos n) = to_decimal n
int_text (negsuc n) = codes "-" ++ to_decimal (n + 1)

-- The UTF-8 bytes of a dash, with a space on each side.
abbrev pub dash : Text
dash = 32 ∷ 226 ∷ 128 ∷ 148 ∷ 32 ∷ []

unfoldable pub submit_response_hint : ℤ → Text → Text
unfolding int_text
submit_response_hint status body =
    if is_2xx status
    then codes "HTTP " ++ int_text status
    else if mentions body (codes "already exists")
    then codes "already on server (duplicate)"
    else if is_difficulty_mismatch status body
    then codes "wrong m=" ++ dash ++ codes "live /difficulty does not match this hash"
    else if is_pool_shed status body
    then codes "pool shed" ++ dash ++ codes "empty 401 (server overloaded)"
    else if is_pool_hold status body
    then codes "pool hold" ++ dash ++ codes "retry (hash kept)"
    else if is_xuni_window_reject status body
    then codes "outside XUNI window"
    else if is_transient_submit_failure status body
    then codes "network error"
    else codes "HTTP " ++ int_text status ++ (if is_empty body then [] else dash ++ take 80 body)

pub record HttpResponse : Type 0 where
  pub status : ℤ
  pub body : Text
  pub error : Text

-- `Submitter::submit`, from the response to the POST.
unfoldable pub submit : HttpResponse → SubmitResult
submit r =
    let body = if is_empty r.body then r.error else r.body in
    record { ok = submit_accepted r.status body; status = r.status; body = body }

-- The wallet that a block is posted for: its own, or the configured one.
unfoldable pub payload_account : Text → BlockHit → Text
payload_account account hit = if is_empty hit.payout_account then account else hit.payout_account

-- `Submitter::probe`, from the response to the POST of an empty object.
unfoldable pub probe : HttpResponse → Bool
probe r =
    ltb_ℤ (pos 0) r.status
    && not (eqb_ℤ r.status (pos 502) || eqb_ℤ r.status (pos 503) || eqb_ℤ r.status (pos 504))
