-- ===== src/Channels/Sms/Pacing.antt =====
-- The posts that a call of `send` makes: to whom, how long and when.
use fleex.Common.{
  ℕ, ◌+◌, ◌≤◌, ◌≡◌, refl, ap, true, none, some, List, [], ◌∷◌, map, length, arith, Option-cases,
  Bool-cases, inl, inr,
}
use fleex.Common.Texts.{Text}
use fleex.Channels.Sms.{
  normalise_msisdn, text_limit, cap_for_segments, SmsSettings, min_gap_ms, Post, Answer, queued,
  read_answer, send_time, send_chain, send, send_direct, post_at, if_number,
}
use fleex.Channels.Sms.Numbers.{cap_for_segments_bounds}

-- Each post is the given time or more after the one before it.
abbrev pub IsPaced : ℕ → List Post → Type 0
IsPaced last [] = Unit
IsPaced last (p ∷ ps) = (last + min_gap_ms ≤ p.at_time) × IsPaced p.at_time ps

-- The numbers of the recipients that have one, in their order.
abbrev pub numbers_of : List Text → List Text
numbers_of [] = []
numbers_of (raw ∷ to) = if_number (normalise_msisdn raw) (numbers_of to) (λ n. n ∷ numbers_of to)

abbrev pub HasText : ℕ → List Post → Type 0
HasText limit [] = Unit
HasText limit (p ∷ ps) = (length p.text ≤ limit) × HasText limit ps

module _ (gateway : Post → ℕ × Answer) where
  -- A recipient without a number is passed over; one with a number is sent to.
  send_chain_skip :
      (body : Text) (now last : ℕ) (raw : Text) (to : List Text)
      → normalise_msisdn raw ≡ none
      → send_chain gateway body now last (raw ∷ to) ≡ send_chain gateway body now last to
  unfolding send_chain
  send_chain_skip body now last raw to e = rw e refl

  send_chain_post :
      (body : Text) (now last : ℕ) (raw : Text) (to : List Text) (n : Text)
      → normalise_msisdn raw ≡ some n
      → let at_time = send_time now last in
        let post = post_at gateway at_time n body in
        send_chain gateway body now last (raw ∷ to)
        ≡ post ∷ send_chain gateway body (at_time + (gateway post).0) at_time to
  unfolding send_chain
  send_chain_post body now last raw to n e = rw e refl

  send_chain_lem :
      (body : Text) (now last limit : ℕ) (to : List Text)
      → length body ≤ limit
      → let posts = send_chain gateway body now last to in
        IsPaced last posts × ((map (λ p. p.to) posts ≡ numbers_of to) × HasText limit posts)
  unfolding send_chain
  send_chain_lem body now last limit [] h = (tt, (refl, tt))
  send_chain_lem body now last limit (raw ∷ to) h = elim (Option-cases (normalise_msisdn raw)) [
    | inl e ↦
        rw (send_chain_skip body now last raw to e) (rw e (send_chain_lem body now last limit to h))
    | inr (n, e) ↦
        let at_time = send_time now last in
        let post = post_at gateway at_time n body in
        let (paced, (sent, short)) =
          send_chain_lem body (at_time + (gateway post).0) at_time limit to h in
        rw (send_chain_post body now last raw to n e)
          (rw e ((ground arith, paced), (ap (λ l. n ∷ l) sent, (h, short))))
  ]

  -- Whatever the gateway answers, `send` makes one post for each recipient with a number of its
  -- own, in their order, none within 250 ms of the one before it, and none longer than the limit.
  send_posts :
      (settings : SmsSettings) (now last : ℕ) (to : List Text) (text : Text)
      → settings.enabled ≡ true
      → let posts = send gateway settings now last to text in
        IsPaced last posts
        × ((map (λ p. p.to) posts ≡ numbers_of to) × HasText (text_limit text) posts)
  unfolding send
  send_posts settings now last to text on = rw on (
      send_chain_lem (cap_for_segments text) now last (text_limit text) to
        (cap_for_segments_bounds text).0)

  -- `sendDirect` claims a message only for a service that is on, a number of its own, and a
  -- gateway that answers with a status from 200 to 299 and the word `queued`.
  send_direct-queued :
      (settings : SmsSettings) (now last : ℕ) (raw text : Text) (id : ℕ)
      → send_direct gateway settings now last raw text ≡ queued id
      → (settings.enabled ≡ true)
        × ((n : Text) × (normalise_msisdn raw ≡ some n)
            × (read_answer
                  (gateway (record {
                    at_time = send_time now last;
                    to = n;
                    text = cap_for_segments text;
                  })).1
                ≡ queued id))
  unfolding send_direct
  send_direct-queued settings now last raw text id h = elim (Bool-cases settings.enabled) [
    | inl on ↦ elim (Option-cases (normalise_msisdn raw)) [
      | inl e ↦ ground (arith, h, on, e)
      | inr (n, e) ↦ (on, (n, e, ground (arith, h, on, e)))
    ]
    | inr off ↦ ground (arith, h, off)
  ]
