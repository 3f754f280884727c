-- ===== src/Session/Stream.antt =====
-- crates/inline/src/session.rs: the arms of `apply` for the text that streams in, each as a function
-- of what it reads of the event, and the paragraphs of a reply that are printed while it streams.
pub mod Updates
pub mod Keeps
pub mod Sound
pub mod Interleaved
pub mod Paragraph
pub mod Split
pub mod Run
use camouflage.Prelude.{
  ℕ, zero, suc, ◌+◌, ◌-◌, Bool, true, false, not, ◌&&◌, ◌||◌, Option, none, some, List, [], ◌∷◌,
  ◌++◌, ◌==◌, ltb, if◌then◌else◌, unwrap_or, is_empty, length, take, drop, get_elem?, position,
}
use camouflage.Prelude.Int.{ℤ}
use camouflage.Text.{
  Str, utf8, str_eq, trim, trim_start, trim_end, is_blank, char_count, starts_with, strip_prefix,
}
use camouflage.Blocks.{Block, user, assistant, reasoning}
use camouflage.Session.{
  Session, Entry, entry, update_entry, find_block, finish, push, push_done, close_group,
  became_busy,
}
use camouflage.Session.Maps.{lookup, insert, remove}

-- `UserMessageCreated`: an echo of a prompt that was printed on submit is not printed again.
unfoldable pub user_message_at : Option ℕ → Str → Session → Session
user_message_at (some i) text s = record s { echoes = drop (suc i) s.echoes }
user_message_at none text s = push_done (user text) s

unfoldable pub user_message : Str → Session → Session
user_message text s = user_message_at (position (λ e. str_eq (trim e) (trim text)) s.echoes) text s

unfoldable pub open_stream : Str → Session → Session × ℕ
open_stream sid s =
    let (pushed, id) = push (assistant []) false s in
    (record pushed { streams = insert str_eq sid id pushed.streams }, id)

-- `AssistantStreamStarted`
unfoldable pub stream_started : Str → ℤ → Session → Session
stream_started sid now s = became_busy now (open_stream sid s).0

-- `push_str` on the text of an entry that `block_mut` finds.
abbrev pub append_markdown : Str → Block → Block
append_markdown t (assistant md) = assistant (md ++ t)
append_markdown t b = b

abbrev pub append_reasoning : Str → Block → Block
append_reasoning t (reasoning text) = reasoning (text ++ t)
append_reasoning t b = b

abbrev pub set_markdown : Str → Block → Block
set_markdown t (assistant md) = assistant t
set_markdown t b = b

unfoldable pub change_block : ℕ → (Block → Block) → Session → Session
change_block id g s = record s {
  entries = update_entry id (λ (e : Entry). record e { block = g e.block }) s.entries;
}

-- `self.reasoning.remove(&sid)`, which finishes the entry.
unfoldable pub end_reasoning_at : Option ℕ → Str → Session → Session
end_reasoning_at none sid s = s
end_reasoning_at (some rid) sid s =
    finish rid (record s { reasoning = remove str_eq sid s.reasoning })

unfoldable pub end_reasoning : Str → Session → Session
end_reasoning sid s = end_reasoning_at (lookup str_eq sid s.reasoning) sid s

unfoldable pub stream_at : Option ℕ → Str → Session → Session × ℕ
stream_at (some id) sid s = (s, id)
stream_at none sid s = open_stream sid s

unfoldable pub append_token : Str → Session × ℕ → Session
append_token token (s, id) = change_block id (append_markdown token) s

-- `AssistantTokenDelta`, up to its counting of the characters.
unfoldable pub before_token : Str → Str → ℤ → Session → Session
before_token sid token now s =
    let rested =
      end_reasoning sid (if is_blank token then s else close_group (became_busy now s)) in
    record rested { streamed_chars = rested.streamed_chars + char_count token }

unfoldable pub token_delta : Str → Str → ℤ → Session → Session
token_delta sid token now s =
    let counted = before_token sid token now s in
    append_token token (stream_at (lookup str_eq sid counted.streams) sid counted)

-- `Vec::insert`
abbrev pub insert_at {ℓ} : {A : Type ℓ} → ℕ → A → List A → List A
insert_at i x xs = take i xs ++ x ∷ drop i xs

-- Whether an entry is a reply without text.
abbrev pub is_empty_reply : Option Entry → Bool
is_empty_reply none = false
is_empty_reply (some e) = empty_reply e.block
  where
    empty_reply : Block → Bool
    empty_reply (assistant md) = is_empty md
    empty_reply _ = false

-- Where reasoning goes: above the empty reply of its stream, or last.
unfoldable pub reply_place : Option ℕ → List Entry → Option ℕ
reply_place none es = none
reply_place (some i) es = if is_empty_reply (get_elem? es i) then some i else none

unfoldable pub reasoning_place : Option ℕ → List Entry → Option ℕ
reasoning_place none es = some (length es)
reasoning_place (some rid) es = reply_place (position (λ (e : Entry). e.id == rid) es) es

unfoldable pub insert_reasoning : Option ℕ → Str → Str → ℤ → Session → Session
insert_reasoning none sid token now s = s
insert_reasoning (some pos) sid token now s = became_busy now (record s {
  next_id = s.next_id + 1;
  entries = insert_at pos (entry s.next_id (reasoning token) false) s.entries;
  reasoning = insert str_eq sid s.next_id s.reasoning;
})

unfoldable pub reasoning_at : Option ℕ → Str → Str → ℤ → Session → Session
reasoning_at (some id) sid token now s = change_block id (append_reasoning token) s
reasoning_at none sid token now s =
    insert_reasoning (reasoning_place (lookup str_eq sid s.streams) s.entries) sid token now s

-- `AssistantReasoningDelta`
unfoldable pub reasoning_delta : Str → Str → ℤ → Session → Session
reasoning_delta sid token now s = reasoning_at (lookup str_eq sid s.reasoning) sid token now s

-- `trim_start_matches('\n')`
unfoldable pub trim_newlines : Str → Str
trim_newlines [] = []
trim_newlines (b ∷ s) = let rest = trim_newlines s in if b == b'\n' then rest else b ∷ s

-- The final text replaces what is not printed, when it begins with what is.
unfoldable pub final_text : ℕ → Option Str → Session → Session
final_text id none s = s
final_text id (some rest) s = change_block id (set_markdown (trim_newlines rest)) s

abbrev pub unprinted : Str → Option Str → Option Str
unprinted printed none = none
unprinted printed (some text) = strip_prefix printed text

unfoldable pub completed_at : Option ℕ → Str → Option Str → Session → Session
completed_at none sid text s = s
completed_at (some id) sid text s =
    let printed = unwrap_or [] (lookup ◌==◌ id s.printed_prefix) in
    let closed : Session = record s {
      streams = remove str_eq sid s.streams;
      printed_prefix = remove ◌==◌ id s.printed_prefix;
    } in
    finish id (final_text id (unprinted printed text) closed)

-- `AssistantMessageCompleted`
unfoldable pub message_completed : Str → Option Str → Session → Session
message_completed sid text s =
    let rested = end_reasoning sid s in
    completed_at (lookup str_eq sid rested.streams) sid text rested

-- `split_inclusive('\n')`
unfoldable pub split_inclusive : Str → List Str
split_inclusive [] = []
split_inclusive (b ∷ s) =
    let rest = split_inclusive s in
    if b == b'\n' then (b ∷ []) ∷ rest else elim rest [ [] ↦ (b ∷ []) ∷ [] | l ∷ ls ↦ (b ∷ l) ∷ ls ]

abbrev pub is_fence : Str → Bool
is_fence line =
    starts_with (utf8 "```") (trim_start line) || starts_with (utf8 "~~~") (trim_start line)

-- The loop of `paragraph_split`, where `n` is the length of the text.
unfoldable pub split_from : ℕ → Bool → Option ℕ → ℕ → List Str → Option ℕ
split_from n in_fence best off [] = best
split_from n in_fence best off (line ∷ ls) =
    let fenced = if is_fence line then not in_fence else in_fence in
    let off' = off + length line in
    split_from n fenced (if not fenced && is_blank line && ltb off' n then some off' else best) off'
      ls

unfoldable pub paragraph_split : Str → Option ℕ
paragraph_split md = split_from (length md) false none 0 (split_inclusive md)

-- `entry(id).or_default().push_str(..)`
abbrev pub add_prefix : ℕ → Str → List (ℕ × Str) → List (ℕ × Str)
add_prefix id t m = insert ◌==◌ id (unwrap_or [] (lookup ◌==◌ id m) ++ t) m

-- What is left of a text that is split at a place, and what was taken from it.
abbrev pub tail_of : ℕ → Str → Str
tail_of at md = trim_newlines (drop at md)

abbrev pub consumed_of : ℕ → Str → Str
consumed_of at md = take (length md - length (tail_of at md)) md

unfoldable pub split_text : Option ℕ → Str → Entry → List Entry → Session → Session
split_text none md e es s = s
split_text (some at) md e es s =
    let head = trim_end (take at md) in
    if is_empty head then s else record s {
      printed_prefix = add_prefix e.id (consumed_of at md) s.printed_prefix;
      next_id = s.next_id + 1;
      entries =
          entry s.next_id (assistant head) true
          ∷ record e { block = assistant (tail_of at md) }
          ∷ es;
    }

unfoldable pub split_block : Block → Entry → List Entry → Session → Session
split_block (assistant md) e es s = split_text (paragraph_split md) md e es s
split_block b e es s = s

unfoldable pub split_first : List Entry → Session → Session
split_first [] s = s
split_first (e ∷ es) s = if e.done then s else split_block e.block e es s

unfoldable pub split_streaming_paragraphs : Session → Session
split_streaming_paragraphs s = split_first s.entries s
