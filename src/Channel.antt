-- ===== src/Channel.antt =====
-- `std::sync::mpsc`: the messages sent so far, oldest first, and when the receiver is dropped: after
-- how many messages, or never. From then on every `send` fails.
use trust.Prelude.{
  ℕ, ◌≡◌, Bool, true, false, Option, none, some, List, [], ◌∷◌, ◌++◌, length, ltb, if◌then◌else◌,
  codes, arith,
}
use trust.AppError.{ForeignError}

pub record Channel (A : Type 0) : Type 0 where
  pub sent : List A
  pub drops_at : Option ℕ

module _ {A : Type 0} where
  abbrev pub is_open : Channel A → Bool
  is_open c = elim c.drops_at [ none ↦ true | some n ↦ ltb (length c.sent) n ]

  abbrev pub accept : A → Channel A → Channel A
  accept a c = record c { sent = c.sent ++ a ∷ [] }

  -- `Sender::send`: whether it succeeded, and the channel after it.
  unfoldable pub send : A → Channel A → Bool × Channel A
  send a c = if is_open c then (true, accept a c) else (false, c)

  -- The receiver stays.
  abbrev pub IsOpen : Channel A → Type 0
  IsOpen c = c.drops_at ≡ none

  pub send-IsOpen : (a : A) (c : Channel A) → IsOpen c → send a c ≡ (true, accept a c)
  unfolding send
  send-IsOpen a c h = ground arith

-- `SendError`, as it is printed.
abbrev pub send_error : ForeignError
send_error = record {
  display = codes "sending on a closed channel";
  debug = codes "SendError { .. }";
}
