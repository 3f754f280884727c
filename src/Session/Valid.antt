-- ===== src/Session/Valid.antt =====
-- crates/inline/src/session.rs: what holds of a session at any time, and the helpers of the arms that
-- keep it.

pub mod Texts
pub mod Streamed
pub mod Entries
pub mod Settled
pub mod Printing
pub mod Transcript
pub mod Finished
pub mod Tooled
pub mod Events
pub mod Pressed
pub mod Routed
pub mod Run
pub mod Unarmed
use camouflage.Prelude.{
  ℕ, zero, suc, ◌+◌, ◌<◌, ◌≤◌, ◌≡◌, refl, sym, ap, subst, Bool, true, false, not, Option, none,
  some, is_some, List, ◌∙◌, [], ◌∷◌, ◌++◌, ◌==◌, ==_iff, if◌then◌else◌, Bool-cases, Option-cases,
  any, retain, length, All, All-append, arith, inl, inr,
}
use camouflage.Prelude.Int.{ℤ}
use camouflage.Text.{Str}
use camouflage.Blocks.{
  ToolBlock, Block, welcome, user, assistant, reasoning, tool, plan, notice, custom, group,
}
use camouflage.Session.{
  Session, Entry, entry, update_entry, find_block, finish, finish_group_if_done, group_done,
  close_open, close_group, close_block, keeps_group, push, push_quiet, push_done, became_busy,
}
use camouflage.Compact.{CompactState, begin, clear}
use camouflage.Compact.Bounds
use camouflage.Session.Ask.{Prompt}
use camouflage.Session.Still.{Consistent, ToolDone}
use camouflage.Session.Stream.Updates.{has_id, has_id-find_block}

abbrev pub is_tool : Block → Bool
is_tool (tool t) = true
is_tool _ = false

-- The entries of an identifier are no tools.
abbrev pub Tells : ℕ → List Entry → Type 0
Tells id es = All (λ (e : Entry). (e.id == id) ≡ true → is_tool e.block ≡ false) es

-- A stream whose identifier was given out, to an entry that is no tool.
abbrev pub Open : ℕ → List Entry → Str × ℕ → Type 0
Open n es x = (x.1 < n) × Tells x.1 es

-- Prompts wait only behind an open one.
abbrev pub Waiting : Option Prompt → List Prompt → Type 0
Waiting none ps = ps ≡ []
Waiting (some p) ps = Unit

pub record Held (W : Option Prompt → List Prompt → Type 0) (es : List Entry) (n : ℕ)
    (streams reasons : List (Str × ℕ)) (o : Option Prompt) (ps : List Prompt) (echoes : List Str)
    (c : CompactState) : Type 0 where
  pub fresh : All (λ (e : Entry). e.id < n) es
  pub consistent : All Consistent es
  pub streams_open : All (Open n es) streams
  pub reasons_open : All (Open n es) reasons
  pub waiting : W o ps
  pub few_echoes : length echoes ≤ 32
  pub live : Bounds.IsValid c

-- The identifiers of the entries are below the next one, no tool of an entry that is done runs, the
-- streams and the reasonings are entries that are no tools, prompts wait only behind an open one, at
-- most 32 echoes are expected, and the live region is within its bounds.
abbrev pub Kept : (Option Prompt → List Prompt → Type 0) → Session → Type 0
Kept W s =
    Held W s.entries s.next_id s.streams s.reasoning s.prompt s.queued_prompts s.echoes s.compact

abbrev pub Valid : Session → Type 0
Valid s = Kept Waiting s

-- A session that is valid but for its prompts.
abbrev pub Loose : Session → Type 0
Loose s = Kept (λ o ps. Unit) s

-- A change of the entries, with the next identifier.
pub record Grows (n : ℕ) (es : List Entry) (m : ℕ) (fs : List Entry) : Type 0 where
  pub below : n ≤ m
  pub fresh : All (λ (e : Entry). e.id < n) es → All (λ (e : Entry). e.id < m) fs
  pub consistent : All Consistent es → All Consistent fs
  pub tells : (id : ℕ) → id < n → Tells id es → Tells id fs

pub map_All :
    {A : Type 0} (P Q : A → Type 0) → ((a : A) → P a → Q a) → (xs : List A) → All P xs → All Q xs
map_All P Q f [] h = tt
map_All P Q f (x ∷ xs) h = (f x h.0, map_All P Q f xs h.1)

All-update_entry :
    (P : Entry → Type 0) (id : ℕ) (f : Entry → Entry)
    → ((e : Entry) → P e → P (f e))
    → (es : List Entry) → All P es
    → All P (update_entry id f es)
unfolding update_entry
All-update_entry P id f h [] a = tt
All-update_entry P id f h (e ∷ es) a = elim (Bool-cases (any (λ (x : Entry). x.id == id) es)) [
  | inl c ↦ rw (c, update_entry) (a.0, All-update_entry P id f h es a.1)
  | inr c ↦ elim (Bool-cases (e.id == id)) [
    | inl i ↦ rw (c, update_entry) (rw i (h e a.0, a.1))
    | inr i ↦ rw (c, update_entry) (rw i a)
  ]
]

-- A change of a block that keeps what it is, and the rest of a tool that does not run.
abbrev pub Like : Block → Block → Type 0
Like b c = (is_tool b ≡ is_tool c) × (ToolDone c → ToolDone b)

abbrev pub Mild : (Block → Block) → Type 0
Mild g = (b : Block) → Like (g b) b

pub Grows-update_entry :
    (g : Block → Block) (id n : ℕ) (es : List Entry)
    → Mild g
    → Grows n es n (update_entry id (λ (e : Entry). record e { block = g e.block }) es)
Grows-update_entry g id n es m = record {
  below = ground arith;
  fresh = All-update_entry _ id _ (λ e l. l) es;
  consistent = All-update_entry Consistent id _ (λ e c d. (m e.block).1 (c d)) es;
  tells = λ k l. All-update_entry _ id _ (λ e t i. (m e.block).0 ∙ t i) es;
}

close_block-Mild : Mild close_block
close_block-Mild (group g) = (refl, λ h. h)
close_block-Mild (tool t) = (refl, λ h. h)
close_block-Mild (welcome t d) = (refl, λ h. h)
close_block-Mild (user t) = (refl, λ h. h)
close_block-Mild (assistant t) = (refl, λ h. h)
close_block-Mild (reasoning t) = (refl, λ h. h)
close_block-Mild (plan i l) = (refl, λ h. h)
close_block-Mild (notice k t) = (refl, λ h. h)
close_block-Mild (custom l) = (refl, λ h. h)

-- The block that `finish` makes done is no running tool.
abbrev pub Rests : Option Block → Type 0
Rests none = Unit
Rests (some b) = ToolDone b

find_block-is_none : (x : Option Block) → is_some x ≡ false → x ≡ none
find_block-is_none none h = refl
find_block-is_none (some b) h = absurd (ground (arith, h))

finish-Consistent :
    (id : ℕ) (es : List Entry)
    → Rests (find_block id es)
    → All Consistent es
    → All Consistent (update_entry id (λ (e : Entry). record e { done = true }) es)
unfolding update_entry find_block
finish-Consistent id [] r h = tt
finish-Consistent id (e ∷ es) r h = elim (Bool-cases (has_id id es)) [
  | inl c ↦ rw (c, update_entry) (h.0, finish-Consistent id es (subst Rests (later c) r) h.1)
  | inr c ↦ elim (Bool-cases (e.id == id)) [
    | inl i ↦ rw (c, update_entry) (rw i ((λ d. subst Rests (here c i) r), h.1))
    | inr i ↦ rw (c, update_entry) (rw i h)
  ]
]
  where
    found : (b : Bool) → has_id id es ≡ b → is_some (find_block id es) ≡ b
    found b c = sym (has_id-find_block id es) ∙ c

    later : has_id id es ≡ true → find_block id (e ∷ es) ≡ find_block id es
    later c =
        ap (λ b. if b then find_block id es else if e.id == id then some e.block else none)
          (found true c)

    here : has_id id es ≡ false → (e.id == id) ≡ true → find_block id (e ∷ es) ≡ some e.block
    here c i =
        ap (λ b. if b then find_block id es else if e.id == id then some e.block else none)
          (found false c)
        ∙ ap (λ b. if b then some e.block else none) i

pub Grows-finish :
    (id n : ℕ) (es : List Entry)
    → Rests (find_block id es)
    → Grows n es n (update_entry id (λ (e : Entry). record e { done = true }) es)
Grows-finish id n es r = record {
  below = ground arith;
  fresh = All-update_entry _ id _ (λ e l. l) es;
  consistent = finish-Consistent id es r;
  tells = λ k l. All-update_entry _ id _ (λ e t. t) es;
}

-- An entry at an identifier that tells nothing of a tool rests.
pub Tells-Rests : (id : ℕ) (es : List Entry) → Tells id es → Rests (find_block id es)
unfolding find_block
Tells-Rests id [] t = tt
Tells-Rests id (e ∷ es) t = elim (Option-cases (find_block id es)) [
  | inl f ↦ rw (f, find_block) (first (e.id == id) e.block t.0)
  | inr (b, f) ↦ rw (f, find_block) (subst Rests f (Tells-Rests id es t.1))
]
  where
    text : (b : Block) → is_tool b ≡ false → ToolDone b
    text (tool t) h = absurd (ground (arith, h))
    text (group g) h = tt
    text (welcome t d) h = tt
    text (user t) h = tt
    text (assistant t) h = tt
    text (reasoning t) h = tt
    text (plan i l) h = tt
    text (notice k t) h = tt
    text (custom l) h = tt

    first :
        (c : Bool) (b : Block) → (c ≡ true → is_tool b ≡ false) → Rests (if c then some b else none)
    first true b h = text b (h refl)
    first false b h = tt

group-Rests : (o : Option Block) → group_done o ≡ true → Rests o
group-Rests (some (group g)) h = tt
group-Rests (some (tool t)) h = absurd (ground (arith, h))
group-Rests (some (welcome t d)) h = tt
group-Rests (some (user t)) h = tt
group-Rests (some (assistant t)) h = tt
group-Rests (some (reasoning t)) h = tt
group-Rests (some (plan i l)) h = tt
group-Rests (some (notice k t)) h = tt
group-Rests (some (custom l)) h = tt
group-Rests none h = tt

unequal : (a b : ℕ) → a < b → (b == a) ≡ true → ⊥
unequal a b l e = absurd (ground (arith, l, e))

Grows-append :
    (n : ℕ) (es : List Entry) (block : Block) (done : Bool)
    → Consistent (entry n block done)
    → Grows n es (n + 1) (es ++ entry n block done ∷ [])
Grows-append n es block done c = record {
  below = ground arith;
  fresh = λ h. All-append _ es _ (map_All _ _ (λ e l. ground (arith, l)) es h) (ground arith, tt);
  consistent = λ h. All-append Consistent es _ h (c, tt);
  tells = λ id l t. All-append _ es _ t ((λ e. absurd (unequal id n l e)), tt);
}

begin-IsValid : (now : ℤ) (c : CompactState) → Bounds.IsValid (begin now c)
unfolding begin clear
begin-IsValid now c = record { bead_bound = ground arith; tools = tt; preview_bound = ground arith }

module _ {W : Option Prompt → List Prompt → Type 0} where
  pub Kept-if : (c : Bool) (x y : Session) → Kept W x → Kept W y → Kept W (if c then x else y)
  Kept-if true x y p q = p
  Kept-if false x y p q = q

  pub Held-Grows :
      (n m : ℕ) (es fs : List Entry) (streams reasons : List (Str × ℕ)) (o : Option Prompt)
      (ps : List Prompt) (echoes : List Str) (c : CompactState)
      → Grows n es m fs
      → Held W es n streams reasons o ps echoes c
      → Held W fs m streams reasons o ps echoes c
  Held-Grows n m es fs streams reasons o ps echoes c g h = record {
    fresh = g.fresh h.fresh;
    consistent = g.consistent h.consistent;
    streams_open = map_All (Open n es) (Open m fs) opened streams h.streams_open;
    reasons_open = map_All (Open n es) (Open m fs) opened reasons h.reasons_open;
    waiting = h.waiting;
    few_echoes = h.few_echoes;
    live = h.live;
  }
    where
      opened : (x : Str × ℕ) → Open n es x → Open m fs x
      opened x (l, t) = (ground (arith, l, g.below), g.tells x.1 l t)

  pub grown-Kept :
      (s : Session) (m : ℕ) (fs : List Entry)
      → Grows s.next_id s.entries m fs
      → Kept W s
      → Kept W (record s { entries = fs; next_id = m })
  grown-Kept s m fs g v =
      Held-Grows s.next_id m s.entries fs s.streams s.reasoning s.prompt s.queued_prompts s.echoes
        s.compact g v

  pub finish-Kept :
      (id : ℕ) (s : Session) → Rests (find_block id s.entries) → Kept W s → Kept W (finish id s)
  unfolding finish
  finish-Kept id s r v = grown-Kept s s.next_id _ (Grows-finish id s.next_id s.entries r) v

  pub finish_group-Kept : (gid : ℕ) (s : Session) → Kept W s → Kept W (finish_group_if_done gid s)
  unfolding finish_group_if_done
  finish_group-Kept gid s v = elim (Bool-cases (group_done (find_block gid s.entries))) [
    | inl d ↦ rw d (finish-Kept gid s (group-Rests (find_block gid s.entries) d) v)
    | inr d ↦ rw d v
  ]

  close_open-Kept : (o : Option ℕ) (s : Session) → Kept W s → Kept W (close_open o s)
  unfolding close_open
  close_open-Kept none s v = v
  close_open-Kept (some gid) s v = finish_group-Kept gid _ (
      grown-Kept s s.next_id _
        (Grows-update_entry close_block gid s.next_id s.entries close_block-Mild) v)

  pub close_group-Kept : (s : Session) → Kept W s → Kept W (close_group s)
  unfolding close_group
  close_group-Kept s v = close_open-Kept s.open_group s v

  pub push_quiet-Kept :
      (block : Block) (done : Bool) (s : Session)
      → (done ≡ true → ToolDone block)
      → Kept W s
      → Kept W (push_quiet block done s).0
  unfolding push_quiet
  push_quiet-Kept block done s c v =
      grown-Kept s (s.next_id + 1) _ (Grows-append s.next_id s.entries block done c) v

  pub push-Kept :
      (block : Block) (done : Bool) (s : Session)
      → (done ≡ true → ToolDone block)
      → Kept W s
      → Kept W (push block done s).0
  unfolding push
  push-Kept block done s c v =
      push_quiet-Kept block done _ c (Kept-if (keeps_group block) s _ v (close_group-Kept s v))

  pub push_done-Kept :
      (block : Block) (s : Session) → ToolDone block → Kept W s → Kept W (push_done block s)
  unfolding push_done
  push_done-Kept block s c v = push-Kept block true s (λ d. c) v

  -- Another live region in a session.
  pub Kept-live :
      (c : CompactState) (s : Session)
      → Bounds.IsValid c
      → Kept W s
      → Kept W (record s { compact = c })
  Kept-live c s b v = record {
    fresh = v.fresh;
    consistent = v.consistent;
    streams_open = v.streams_open;
    reasons_open = v.reasons_open;
    waiting = v.waiting;
    few_echoes = v.few_echoes;
    live = b;
  }

  pub became_busy-Kept : (now : ℤ) (s : Session) → Kept W s → Kept W (became_busy now s)
  unfolding became_busy
  became_busy-Kept now s v =
      Kept-if (is_some s.busy_since) s _ v
        (Kept-live (begin now s.compact) s (begin-IsValid now s.compact) v)
