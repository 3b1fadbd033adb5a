-- ===== src/Web/LiveSocket/Recovery.antt =====
-- That the hook neither stalls nor opens two sockets, and that it can always recover.
use fleex.Common.{
  ℕ, zero, suc, ◌+◌, ◌^◌, ◌≤◌, ◌≡◌, refl, Bool, true, false, Option, none, some, arith, Bool-cases,
  Option-cases, inl, inr, ◌⊎◌,
}
use fleex.Web.LiveSocket.{
  Query, ticket, Socket, opening, opened, Hook, max_delay, backoff, connect, open_socket, on_open,
  on_close, unmount, mount, Step, timer_fires, ticket_answers, opens, closes, unmounts, Reach, here,
  next,
}

abbrev pub one_if : Bool → ℕ
one_if true = 1
one_if false = 0

abbrev pub is_set {ℓ} : {A : Type ℓ} → Option A → Bool
is_set none = false
is_set (some a) = true

abbrev pub is_open : Option Socket → Bool
is_open none = false
is_open (some (opening q)) = false
is_open (some (opened q)) = true

-- What the hook is at: a timer, a request for a ticket, or a socket.
abbrev pub activities : Hook → ℕ
activities h = one_if (is_set h.timer) + one_if h.requesting + one_if (is_set h.socket)

abbrev pub IsReset : Option Socket → ℕ → Type 0
IsReset (some (opened q)) retry = retry ≡ 0
IsReset _ retry = Unit

abbrev pub IsDelay : Option ℕ → Type 0
IsDelay none = Unit
IsDelay (some d) = (1000 ≤ d) × (d ≤ max_delay)

-- A page that is shown has exactly one activity, and shows itself connected exactly when its
-- socket is open, when the delays start again at the shortest; one that is left has no timer and
-- no socket.
abbrev pub IsSound : Bool → Hook → Type 0
IsSound false h =
    (activities h ≡ 1)
    × (h.connected ≡ is_open h.socket)
    × IsDelay h.timer
    × IsReset h.socket h.retry
IsSound true h = (h.timer ≡ none) × (h.socket ≡ none)

abbrev pub IsLive : Hook → Type 0
IsLive h = IsSound h.stopped h

pow_pos : (n : ℕ) → 1 ≤ 2 ^ n
pow_pos zero = omega arith
pow_pos (suc n) = omega (arith, pow_pos n)

backoff_bounds : (retry : ℕ) → (1000 ≤ backoff retry) × (backoff retry ≤ max_delay)
unfolding backoff
backoff_bounds retry = let p = pow_pos retry in ground arith

IsSound-connect :
    (has_token : Bool) (h : Hook)
    → activities h ≡ 0
    → h.connected ≡ false
    → IsLive (connect has_token h)
unfolding connect
IsSound-connect has_token h idle off = ground arith

module _ (h : Hook) (live : IsLive h) where
  timer_fires-IsLive :
      (d : ℕ) (has_token : Bool)
      → h.timer ≡ some d
      → IsLive (connect has_token (record h { timer = none }))
  unfolding connect
  timer_fires-IsLive d has_token e = ground arith

  ticket_answers-IsLive :
      (q : Query) → h.requesting ≡ true → IsLive (open_socket q (record h { requesting = false }))
  unfolding open_socket
  ticket_answers-IsLive q e = ground arith

  opens-IsLive : (q : Query) → h.socket ≡ some (opening q) → IsLive (on_open q h)
  unfolding on_open
  opens-IsLive q e = ground arith

  closes-IsLive : (s : Socket) → h.socket ≡ some s → IsLive (on_close h)
  unfolding on_close
  closes-IsLive s e = ground (arith, backoff_bounds h.retry)

Step-IsLive : {h h' : Hook} → Step h h' → IsLive h → IsLive h'
unfolding unmount
Step-IsLive (timer_fires d t e) l = timer_fires-IsLive _ l d t e
Step-IsLive (ticket_answers q e) l = ticket_answers-IsLive _ l q e
Step-IsLive (opens q e) l = opens-IsLive _ l q e
Step-IsLive (closes s e) l = closes-IsLive _ l s e
Step-IsLive unmounts l = (refl, refl)

Reach-IsLive : {h h' : Hook} → Reach h h' → IsLive h → IsLive h'
Reach-IsLive here l = l
Reach-IsLive (next r s) l = Step-IsLive s (Reach-IsLive r l)

-- Whatever the browser and the server do in whatever order, a page that is shown is at exactly one
-- of a timer of 1 to 30 seconds, a request for a ticket and a socket, and shows itself connected
-- exactly when the socket is open; a page that was left has no timer and no socket.
pub mount-IsLive : (has_token : Bool) (h : Hook) → Reach (mount has_token) h → IsLive h
unfolding mount connect
mount-IsLive true h r = Reach-IsLive r (refl, refl, tt, tt)
mount-IsLive false h r = Reach-IsLive r (refl, refl, (omega arith, omega arith), tt)

-- A run to an open socket.
Recovers : Hook → Type 0
Recovers h = (h' : Hook) × Reach h h' × (h'.connected ≡ true) × (h'.retry ≡ 0)

Reach-trans : {h u v : Hook} → Reach h u → Reach u v → Reach h v
Reach-trans r here = r
Reach-trans r (next s t) = next (Reach-trans r s) t

Recovers-next : {h u : Hook} → Step h u → Recovers u → Recovers h
unfolding Recovers
Recovers-next s (h', r, on, fresh) = (h', Reach-trans (next here s) r, on, fresh)

module _ (h : Hook) (shown : h.stopped ≡ false) where
  opening-Recovers : (q : Query) → h.socket ≡ some (opening q) → Recovers h
  unfolding Recovers on_open
  opening-Recovers q e = (on_open q h, next here (opens q e), refl, refl)

requesting-Recovers : (h : Hook) → h.stopped ≡ false → h.requesting ≡ true → Recovers h
unfolding open_socket
requesting-Recovers h shown e = Recovers-next (ticket_answers ticket e) (
    opening-Recovers (open_socket ticket (record h { requesting = false })) (rw shown refl) ticket
      (rw shown refl))

timer-Recovers : (h : Hook) (d : ℕ) → h.stopped ≡ false → h.timer ≡ some d → Recovers h
unfolding connect
timer-Recovers h d shown e =
    Recovers-next (timer_fires d true e) (
      requesting-Recovers (connect true (record h { timer = none })) (rw shown refl)
        (rw shown refl))

opened-Recovers :
    (h : Hook) (q : Query) → IsLive h → h.stopped ≡ false → h.socket ≡ some (opened q) → Recovers h
unfolding Recovers
opened-Recovers h q l shown e = (h, here, ground arith, ground arith)

socket-Recovers :
    (h : Hook) (s : Socket) → IsLive h → h.stopped ≡ false → h.socket ≡ some s → Recovers h
socket-Recovers h (opening q) l shown e = opening-Recovers h shown q e
socket-Recovers h (opened q) l shown e = opened-Recovers h q l shown e

-- An activity that there is one of.
IsLive-cases :
    (h : Hook)
    → IsLive h
    → h.stopped ≡ false
    → ((d : ℕ) × (h.timer ≡ some d)) ⊎ (h.requesting ≡ true) ⊎ ((s : Socket) × (h.socket ≡ some s))
IsLive-cases h l shown = elim (Option-cases h.timer) [
  | inr t ↦ inl t
  | inl no_timer ↦ elim (Bool-cases h.requesting) [
    | inl r ↦ inr (inl r)
    | inr quiet ↦ elim (Option-cases h.socket) [
      | inr s ↦ inr (inr s)
      | inl closed ↦ absurd (ground arith)
    ]
  ]
]

live-Recovers : (h : Hook) → IsLive h → h.stopped ≡ false → Recovers h
live-Recovers h l shown = elim (IsLive-cases h l shown) [
  | inl (d, e) ↦ timer-Recovers h d shown e
  | inr (inl e) ↦ requesting-Recovers h shown e
  | inr (inr (s, e)) ↦ socket-Recovers h s l shown e
]

-- From wherever a page that is shown has come to, there is a run of the surroundings that leads to
-- an open socket, with the delays back at the shortest.
pub mount_recovers :
    (has_token : Bool) (h : Hook)
    → Reach (mount has_token) h
    → h.stopped ≡ false
    → (h' : Hook) × Reach h h' × (h'.connected ≡ true) × (h'.retry ≡ 0)
unfolding Recovers
mount_recovers has_token h r shown = live-Recovers h (mount-IsLive has_token h r) shown
