-- ===== src/Web/LiveSocket.antt =====
-- `useLiveSocket` of services/web/src/lib/useLiveSocket.ts: the WebSocket of a page, which opens
-- again when it is lost. What the browser and the server choose is a step of the surroundings; the
-- messages are left out.
pub mod Recovery
use fleex.Common.{ℕ, ◌+◌, ◌*◌, ◌^◌, ◌≡◌, Bool, true, false, Option, none, some, ltb, if◌then◌else◌}

-- How the URL of a socket authenticates: with a ticket, or with the token where none was given.
pub data Query : Type 0 where
  ticket token : Query

pub data Socket : Type 0 where
  opening opened : Query → Socket

-- The variables of the effect, with the delay of a timer that was set, whether a call of `connect`
-- waits for its ticket, and the socket that is not closed.
pub record Hook : Type 0 where
  pub stopped : Bool
  pub retry : ℕ
  pub timer : Option ℕ
  pub requesting : Bool
  pub socket : Option Socket
  pub connected : Bool

abbrev pub min : ℕ → ℕ → ℕ
min a b = if ltb a b then a else b

abbrev pub no_token_delay : ℕ
no_token_delay = 2000

abbrev pub max_delay : ℕ
max_delay = 30_000

unfoldable pub backoff : ℕ → ℕ
backoff retry = min (1000 * 2 ^ retry) max_delay

-- `connect` up to its request for a ticket; `has_token` is whether `getToken` gives one.
unfoldable pub connect : Bool → Hook → Hook
connect has_token h =
    if h.stopped
    then h
    else if has_token
    then record h { requesting = true }
    else record h { timer = some no_token_delay }

-- The rest of `connect`, after the answer.
unfoldable pub open_socket : Query → Hook → Hook
open_socket q h = if h.stopped then h else record h { socket = some (opening q) }

unfoldable pub on_open : Query → Hook → Hook
on_open q h = record h { socket = some (opened q); retry = 0; connected = true }

unfoldable pub on_close : Hook → Hook
unfolding backoff
on_close h = if h.stopped then record h { socket = none; connected = false } else record h {
  socket = none;
  connected = false;
  timer = some (backoff h.retry);
  retry = h.retry + 1;
}

-- The clean-up of the effect; `onclose` is taken off the socket that it closes.
unfoldable pub unmount : Hook → Hook
unmount h = record h { stopped = true; timer = none; socket = none }

-- The effect when the page is shown.
unfoldable pub mount : Bool → Hook
unfolding connect
mount has_token = connect has_token (record {
  stopped = false;
  retry = 0;
  timer = none;
  requesting = false;
  socket = none;
  connected = false;
})

-- A socket fails before or after it opened: `onerror` closes it, which ends in `onclose` too.
pub data Step (h : Hook) : Hook → Type 0 where
  timer_fires :
      (delay : ℕ) (has_token : Bool)
      → h.timer ≡ some delay
      → Step h (connect has_token (record h { timer = none }))
  ticket_answers :
      (q : Query) → h.requesting ≡ true → Step h (open_socket q (record h { requesting = false }))
  opens : (q : Query) → h.socket ≡ some (opening q) → Step h (on_open q h)
  closes : (s : Socket) → h.socket ≡ some s → Step h (on_close h)
  unmounts : Step h (unmount h)

pub data Reach (h : Hook) : Hook → Type 0 where
  here : Reach h h
  next : {u v : Hook} → Reach h u → Step u v → Reach h v
