-- ===== src/Notifier/Approval.antt =====
-- services/notifier/internal/approval: proposals wait for a tap of the operator. The
-- posting of a proposal is cut where the code gives up its lock for the send, so that other operations
-- may come between; the halt test and the first write of it are one step here, and so are the removal, the
-- publication and the restoring of a tap, between which the code gives up the lock too. Whether a call of
-- Telegram or of the bus succeeds is an argument of the step that makes it; the texts shown to the
-- operator are left out, and SHA-256 is a parameter.
pub mod Callbacks
pub mod Keyed
pub mod Decisions
pub mod Ghost
mod Tests
use lobster_roll.Prelude.{
  ℕ, suc, ◌+◌, ◌-◌, ◌/◌, ◌%◌, ◌≡◌, Bool, true, false, not, List, [], ◌∷◌, ◌++◌, Option, none, some,
  GoString, codes, ◌≟◌, bytes_eq, ◌==◌, ltb, ℤ, pos, negsuc, decimal, take, lookup, insert, delete,
  trim_space, if◌then◌else◌, ◌&&◌, ◌||◌,
}
use lobster_roll.Bus.{OrderProposal, OrderDecision, ControlMsg}

-- What a callback is answered with.
pub data Answer : Type 0 where
  unauthorized unrecognized already_decided failed_try_again rejected approved : Answer

-- telegram.CallbackQuery: `chat` is the chat of its message, if there is one.
pub record CallbackQuery : Type 0 where
  pub chat : Option ℤ
  pub content : GoString
  pub username : GoString

pub record Pending {ℓ} (F : Type ℓ) : Type ℓ where
  pub proposal : OrderProposal F
  pub message_id : ℕ

-- Manager, and what it has published and answered.
pub record Manager {ℓ} (F : Type ℓ) : Type ℓ where
  pub pend : List (GoString × Pending F)
  pub halted : Bool
  pub decisions : List (OrderDecision F)
  pub controls : List ControlMsg
  pub answers : List Answer

unfoldable pub onto : ℕ → Option (GoString × GoString) → Option (GoString × GoString)
onto c none = none
onto c (some (a, b)) = some (c ∷ a, b)

-- `strings.SplitN(s, sep, 2)`, when it gives two parts.
unfoldable pub split_first : ℕ → GoString → Option (GoString × GoString)
unfolding onto
split_first sep [] = none
split_first sep (c ∷ cs) =
    let rest = split_first sep cs in if c == sep then some ([], cs) else onto c rest

unfoldable pub checked_parts : Option (GoString × GoString) → Option (GoString × GoString)
checked_parts none = none
checked_parts (some (action, key)) =
    if not (action ≟ codes "a") && not (action ≟ codes "r")
    then none
    else if key ≟ []
    then none
    else some (action, key)

-- `ParseCallback`.
unfoldable pub parse_callback : GoString → Option (GoString × GoString)
unfolding split_first checked_parts
parse_callback content = checked_parts (split_first b':' content)

unfoldable pub hex_digit : ℕ → ℕ
hex_digit n = if ltb n 10 then b'0' + n else b'a' + n - 10

unfoldable pub hex_encode : List ℕ → GoString
unfolding hex_digit
hex_encode [] = []
hex_encode (b ∷ bs) = hex_digit (b / 16) ∷ hex_digit (b % 16) ∷ hex_encode bs

unfoldable pub proposal_key : (List ℕ → List ℕ) → GoString → GoString
unfolding hex_encode
proposal_key sha256 id = hex_encode (take 8 (sha256 id))

-- `strconv.FormatInt`.
unfoldable pub format_int : ℤ → GoString
format_int (pos n) = decimal n
format_int (negsuc n) = b'-' ∷ decimal (suc n)

unfoldable pub authorized : GoString → ℤ → Bool
unfolding format_int
authorized chat_id chat = format_int chat ≟ chat_id

unfoldable pub may_act : GoString → Option ℤ → Bool
unfolding authorized
may_act chat_id none = false
may_act chat_id (some chat) = authorized chat_id chat

-- `m.pend[key]` reads the zero value of a missing key.
unfoldable pub or_zero {ℓ} : {F : Type ℓ} → Pending F → Option (Pending F) → Pending F
or_zero zero_pending none = zero_pending
or_zero zero_pending (some p) = p

module _ {ℓ} {F : Type ℓ} (sha256 : List ℕ → List ℕ) (chat_id : GoString) where
  -- OnProposal up to SendKeyboard.
  unfoldable pub register : Manager F → OrderProposal F → Manager F
  unfolding proposal_key
  register m p = if m.halted then m else record m {
    pend = insert (proposal_key sha256 p.id) (record { proposal = p; message_id = 0 }) m.pend;
  }

  -- OnProposal after SendKeyboard: the id of the message, or none for an error.
  unfoldable pub posted : Pending F → Manager F → OrderProposal F → Option ℕ → Manager F
  unfolding proposal_key or_zero
  posted zero_pending m p none = record m { pend = delete (proposal_key sha256 p.id) m.pend }
  posted zero_pending m p (some message_id) =
      let key = proposal_key sha256 p.id in
      record m {
        pend =
            insert key
              (record (or_zero zero_pending (lookup key m.pend)) { message_id = message_id })
              m.pend;
      }

  -- The whole of OnProposal, with nothing in between.
  unfoldable pub on_proposal : Pending F → Manager F → OrderProposal F → Option ℕ → Manager F
  unfolding register posted
  on_proposal zero_pending m p sent =
      if m.halted then m else posted zero_pending (register m p) p sent

  unfoldable pub answer : Manager F → Answer → Manager F
  answer m a = record m { answers = m.answers ++ a ∷ [] }

  -- The tap has claimed `p`; `accepted` tells whether PublishDecision succeeds.
  unfoldable pub decide : Manager F → GoString → GoString → GoString → Pending F → Bool → Manager F
  unfolding answer
  decide m action key username p accepted =
      let claimed = record m { pend = delete key m.pend } in
      let yes = action ≟ codes "a" in
      if accepted
      then answer
          (record claimed {
            decisions =
                m.decisions
                ++ record {
                  proposal = p.proposal;
                  approved = yes;
                  by = codes "telegram:" ++ username;
                }
                  ∷ [];
          })
          (if yes then approved else rejected)
      else answer (record claimed { pend = insert key p claimed.pend }) failed_try_again

  unfoldable pub claim :
      Manager F → GoString → GoString → GoString → Option (Pending F) → Bool → Manager F
  unfolding decide answer
  claim m action key username none accepted = answer m already_decided
  claim m action key username (some p) accepted = decide m action key username p accepted

  unfoldable pub parsed : Manager F → GoString → Option (GoString × GoString) → Bool → Manager F
  unfolding claim answer
  parsed m username none accepted = answer m unrecognized
  parsed m username (some (action, key)) accepted =
      claim m action key username (lookup key m.pend) accepted

  unfoldable pub handle_callback : Manager F → CallbackQuery → Bool → Manager F
  unfolding parsed parse_callback answer may_act
  handle_callback m cb accepted =
      if not (may_act chat_id cb.chat)
      then answer m unauthorized
      else parsed m cb.username (parse_callback cb.content) accepted

  unfoldable pub control : Manager F → Bool → GoString → Bool → Manager F
  control m halted username accepted = record m {
    halted = halted;
    controls =
        if accepted
        then m.controls ++ record { halted = halted; by = codes "telegram:" ++ username } ∷ []
        else m.controls;
  }

  unfoldable pub handle_command : Manager F → GoString → ℤ → GoString → Bool → Manager F
  unfolding authorized control
  handle_command m text chat username accepted =
      if not (authorized chat_id chat)
      then m
      else if trim_space text ≟ codes "/halt"
      then control m true username accepted
      else if trim_space text ≟ codes "/resume"
      then control m false username accepted
      else m
