-- ===== src/Session/Valid/Streamed.antt =====
-- crates/inline/src/session.rs: the arms for the text that streams in, and the printing, keep a session
-- valid.
use camouflage.Prelude.{
  ℕ, suc, ◌+◌, ◌<◌, ◌≡◌, refl, Bool, false, Option, none, some, List, [], ◌==◌, All-append,
  unwrap_or, arith, position,
}
use camouflage.Prelude.Int.{ℤ}
use camouflage.Text.{Str, str_eq, is_blank, trim}
use camouflage.Blocks.{Block, user, assistant, reasoning}
use camouflage.Session.{Session, Entry, entry, push, push_quiet}
use camouflage.Session.Ask.{Prompt}
use camouflage.Session.Maps.{lookup, remove}
use camouflage.Session.Stream.{
  change_block, open_stream, stream_started, end_reasoning, end_reasoning_at, stream_at,
  append_token, before_token, token_delta, insert_at, insert_reasoning, reasoning_at,
  reasoning_delta, final_text, completed_at, unprinted, message_completed, user_message,
  user_message_at,
}
use camouflage.Session.Valid.{
  Kept, Kept-if, Mild, Grows-update_entry, grown-Kept, is_tool, Tells, Open, Tells-Rests,
  finish-Kept, close_group-Kept, push-Kept, push_done-Kept, became_busy-Kept,
}
use camouflage.Session.Valid.Texts.{
  All-insert, All-remove, All-lookup, append_markdown-Mild, append_reasoning-Mild,
  set_markdown-Mild, all_below, at_position, Grows-insert_at, final_text-Tells, drop-fits,
}

module _ {W : Option Prompt → List Prompt → Type 0} where
  pub change_block-Kept :
      (g : Block → Block) (id : ℕ) (s : Session) → Mild g → Kept W s → Kept W (change_block id g s)
  unfolding change_block
  change_block-Kept g id s m v =
      grown-Kept s s.next_id _ (Grows-update_entry g id s.next_id s.entries m) v

  -- A block that is pushed and is no tool can be a stream's.
  push_quiet-Open :
      (block : Block) (done : Bool) (s : Session) (sid : Str)
      → is_tool block ≡ false
      → Kept W s
      → Open
          (push_quiet block done s).0.next_id
          (push_quiet block done s).0.entries
          (sid, s.next_id)
  unfolding push_quiet
  push_quiet-Open block done s sid t v = (
    ground arith,
    All-append _ s.entries _ (all_below s.next_id s.entries v.fresh) ((λ i. t), tt),
  )

  open_stream-Kept : (sid : Str) (s : Session) → Kept W s → Kept W (open_stream sid s).0
  unfolding open_stream push push_quiet
  open_stream-Kept sid s v = record {
    fresh = p.fresh;
    consistent = p.consistent;
    streams_open =
        All-insert (Open pushed.next_id pushed.entries) sid s.next_id pushed.streams
          (push_quiet-Open (assistant []) false s sid refl v) p.streams_open;
    reasons_open = p.reasons_open;
    waiting = p.waiting;
    few_echoes = p.few_echoes;
    live = p.live;
  }
    where
      pushed : Session
      pushed = (push (assistant []) false s).0

      p : Kept W pushed
      p = push-Kept (assistant []) false s (λ d. absurd (ground (arith, d))) v

  pub stream_started-Kept :
      (sid : Str) (now : ℤ) (s : Session) → Kept W s → Kept W (stream_started sid now s)
  unfolding stream_started
  stream_started-Kept sid now s v = became_busy-Kept now _ (open_stream-Kept sid s v)

  end_reasoning_at-Kept :
      (o : Option ℕ) (sid : Str) (s : Session)
      → lookup str_eq sid s.reasoning ≡ o
      → Kept W s
      → Kept W (end_reasoning_at o sid s)
  unfolding end_reasoning_at
  end_reasoning_at-Kept none sid s e v = v
  end_reasoning_at-Kept (some rid) sid s e v =
      finish-Kept rid _
        (Tells-Rests rid s.entries
          (All-lookup (λ id. (id < s.next_id) × Tells id s.entries) sid rid s.reasoning e
            v.reasons_open).1)
        removed
    where
      removed : Kept W (record s { reasoning = remove str_eq sid s.reasoning })
      removed = record {
        fresh = v.fresh;
        consistent = v.consistent;
        streams_open = v.streams_open;
        reasons_open = All-remove (Open s.next_id s.entries) sid s.reasoning v.reasons_open;
        waiting = v.waiting;
        few_echoes = v.few_echoes;
        live = v.live;
      }

  end_reasoning-Kept : (sid : Str) (s : Session) → Kept W s → Kept W (end_reasoning sid s)
  unfolding end_reasoning
  end_reasoning-Kept sid s v = end_reasoning_at-Kept _ sid s refl v

  before_token-Kept :
      (sid token : Str) (now : ℤ) (s : Session) → Kept W s → Kept W (before_token sid token now s)
  unfolding before_token
  before_token-Kept sid token now s v =
      end_reasoning-Kept sid _
        (Kept-if (is_blank token) s _ v (close_group-Kept _ (became_busy-Kept now s v)))

  pub token_delta-Kept :
      (sid token : Str) (now : ℤ) (s : Session) → Kept W s → Kept W (token_delta sid token now s)
  unfolding token_delta append_token stream_at
  token_delta-Kept sid token now s v =
      change_block-Kept _ _ _ (append_markdown-Mild token) (at (lookup str_eq sid b.streams))
    where
      b : Session
      b = before_token sid token now s

      at : (o : Option ℕ) → Kept W (stream_at o sid b).0
      at (some id) = before_token-Kept sid token now s v
      at none = open_stream-Kept sid b (before_token-Kept sid token now s v)

  insert_reasoning-Kept :
      (o : Option ℕ) (sid token : Str) (now : ℤ) (s : Session)
      → Kept W s
      → Kept W (insert_reasoning o sid token now s)
  unfolding insert_reasoning
  insert_reasoning-Kept none sid token now s v = v
  insert_reasoning-Kept (some i) sid token now s v = became_busy-Kept now _ (record {
    fresh = g.fresh;
    consistent = g.consistent;
    streams_open = g.streams_open;
    reasons_open =
        All-insert (Open (s.next_id + 1) es) sid _ s.reasoning (ground arith, told) g.reasons_open;
    waiting = g.waiting;
    few_echoes = g.few_echoes;
    live = g.live;
  })
    where
      es : List Entry
      es = insert_at i (entry s.next_id (reasoning token) false) s.entries

      g : Kept W (record s { entries = es; next_id = s.next_id + 1 })
      g =
          grown-Kept s (s.next_id + 1) es
            (Grows-insert_at i s.next_id s.entries (reasoning token) false (λ d. tt)) v

      told : Tells s.next_id es
      told = at_position _ i _ s.entries (λ e. refl) (all_below s.next_id s.entries v.fresh)

  pub reasoning_delta-Kept :
      (sid token : Str) (now : ℤ) (s : Session)
      → Kept W s
      → Kept W (reasoning_delta sid token now s)
  unfolding reasoning_delta reasoning_at
  reasoning_delta-Kept sid token now s v = at (lookup str_eq sid s.reasoning)
    where
      at : (o : Option ℕ) → Kept W (reasoning_at o sid token now s)
      at (some id) = change_block-Kept _ id s (append_reasoning-Mild token) v
      at none = insert_reasoning-Kept _ sid token now s v

  final_text-Kept : (id : ℕ) (o : Option Str) (s : Session) → Kept W s → Kept W (final_text id o s)
  unfolding final_text
  final_text-Kept id none s v = v
  final_text-Kept id (some rest) s v = change_block-Kept _ id s (set_markdown-Mild _) v

  completed_at-Kept :
      (o : Option ℕ) (sid : Str) (text : Option Str) (s : Session)
      → lookup str_eq sid s.streams ≡ o
      → Kept W s
      → Kept W (completed_at o sid text s)
  unfolding completed_at
  completed_at-Kept none sid text s e v = v
  completed_at-Kept (some id) sid text s e v =
      finish-Kept id _ (Tells-Rests id _ (final_text-Tells id shown closed q.1 q.0))
        (final_text-Kept id shown closed closed-is)
    where
      shown : Option Str
      shown = unprinted (unwrap_or [] (lookup ◌==◌ id s.printed_prefix)) text

      closed : Session
      closed = record s {
        streams = remove str_eq sid s.streams;
        printed_prefix = remove ◌==◌ id s.printed_prefix;
      }

      q : (id < s.next_id) × Tells id s.entries
      q = All-lookup (λ id. (id < s.next_id) × Tells id s.entries) sid id s.streams e v.streams_open

      closed-is : Kept W closed
      closed-is = record {
        fresh = v.fresh;
        consistent = v.consistent;
        streams_open = All-remove (Open s.next_id s.entries) sid s.streams v.streams_open;
        reasons_open = v.reasons_open;
        waiting = v.waiting;
        few_echoes = v.few_echoes;
        live = v.live;
      }

  pub message_completed-Kept :
      (sid : Str) (text : Option Str) (s : Session)
      → Kept W s
      → Kept W (message_completed sid text s)
  unfolding message_completed
  message_completed-Kept sid text s v =
      completed_at-Kept _ sid text _ refl (end_reasoning-Kept sid s v)

  pub user_message-Kept : (text : Str) (s : Session) → Kept W s → Kept W (user_message text s)
  unfolding user_message user_message_at
  user_message-Kept text s v = at (position (λ e. str_eq (trim e) (trim text)) s.echoes)
    where
      at : (o : Option ℕ) → Kept W (user_message_at o text s)
      at none = push_done-Kept (user text) s tt v
      at (some i) = record {
        fresh = v.fresh;
        consistent = v.consistent;
        streams_open = v.streams_open;
        reasons_open = v.reasons_open;
        waiting = v.waiting;
        few_echoes = ground (arith, v.few_echoes, drop-fits (suc i) s.echoes);
        live = v.live;
      }
