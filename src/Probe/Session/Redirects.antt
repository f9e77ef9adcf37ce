-- ===== src/Probe/Session/Redirects.antt =====
-- CheckRedirect of NewSession (internal/probe/session.go) and the requests that a call of Get, GetJSON or
-- PostForm becomes.
--
-- Go's HTTP client asks CheckRedirect before it follows a redirect, with the number of requests that the
-- call has made so far, and fails on its error. How often the network redirects a call is a parameter.
-- Every request of a call may repeat its body, as a 307 or 308 redirect makes it do.
use is_ntust_down.Prelude.{
  ℕ, zero, suc, ◌+◌, ◌*◌, ◌≤◌, Bool, List, [], ◌∷◌, count_by, leb, arith, if◌then◌else◌, not,
  length, ◌≡◌, true,
}
use is_ntust_down.Probe.Session.{Sent, max_redirects}
use is_ntust_down.Probe.Session.Credentials.{presents_password, logins}

-- whether one more redirect is followed after `via` requests
abbrev pub check_redirect : ℕ → Bool
check_redirect via = not (leb max_redirects via)

-- the redirects followed of those that the network answers with, after `via` requests
unfoldable pub followed : ℕ → ℕ → ℕ
followed via zero = 0
followed via (suc asked) =
    let more = followed (suc via) asked in if check_redirect via then suc more else 0

-- The requests on the wire of the calls that a test picks; `asked` is the number of redirects that the
-- network answers the last call of a list with.
unfoldable pub on_wire : (Sent → Bool) → (List Sent → ℕ) → List Sent → ℕ
unfolding followed
on_wire picks asked [] = 0
on_wire picks asked (s ∷ sent) =
    let before = on_wire picks asked sent in
    if picks s then suc (followed 1 (asked (s ∷ sent))) + before else before

followed-le : (via asked : ℕ) → via ≤ 6 → followed via asked + via ≤ 6
unfolding followed
followed-le via zero h = omega (arith, h)
followed-le via (suc asked) h = ground (arith, followed-le (suc via) asked)

-- A call makes six requests at most.
on_wire-le :
    (picks : Sent → Bool) (asked : List Sent → ℕ) (sent : List Sent)
    → on_wire picks asked sent ≤ 6 * count_by picks sent
unfolding on_wire
on_wire-le picks asked [] = omega arith
on_wire-le picks asked (s ∷ sent) =
    ground (arith, on_wire-le picks asked sent, followed-le 1 (asked (s ∷ sent)))

-- how often the password is on the wire
abbrev pub wire_logins : (List Sent → ℕ) → List Sent → ℕ
wire_logins asked sent = on_wire presents_password asked sent

pub wire_logins-le :
    (asked : List Sent → ℕ) (sent : List Sent) (n : ℕ)
    → logins sent ≤ n
    → wire_logins asked sent ≤ 6 * n
wire_logins-le asked sent n h = omega (arith, h, on_wire-le presents_password asked sent)

-- all requests on the wire
abbrev any_call : Sent → Bool
any_call s = true

abbrev pub wire_requests : (List Sent → ℕ) → List Sent → ℕ
wire_requests asked sent = on_wire any_call asked sent

count_by-any_call : (sent : List Sent) → count_by any_call sent ≡ length sent
count_by-any_call [] = omega arith
count_by-any_call (s ∷ sent) = omega (arith, count_by-any_call sent)

pub wire_requests-le :
    (asked : List Sent → ℕ) (sent : List Sent) (n : ℕ)
    → length sent ≤ n
    → wire_requests asked sent ≤ 6 * n
wire_requests-le asked sent n h =
    omega (arith, h, count_by-any_call sent, on_wire-le any_call asked sent)
