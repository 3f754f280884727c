-- ===== src/Compact/Bounds.antt =====
-- crates/inline/src/compact.rs: the bounds of the compact state, and the bead of a running tool.
use camouflage.Prelude.{
  ℕ, zero, suc, ◌-◌, ◌≤◌, ◌<◌, Bool, true, false, Option, none, some, List, [], ◌∷◌, ◌++◌, ◌≡◌,
  refl, sym, ap, ◌∙◌, arith, inl, inr, ◌==◌, Bool-cases, length, drop, is_empty, get_elem?, retain,
  All, length-append, length-drop, subst,
}
use camouflage.Prelude.Int.{ℤ}
use camouflage.Text.{Str, str_eq}
use camouflage.Text.Laws.{str_eq_refl}
use camouflage.Blocks.{DiffLine, PlanItem}
use camouflage.Compact.{
  TrailKind, agent, from_tool, Bead, CompactState, max_trail_beads, max_code_previews, make_room,
  push_bead, shift_down, bead, insert_tool, lookup_tool, remove_tool, tool_started, tool_finished,
  finish_tool_bead, finish_bead, update_at, agent_start, agent_done, plan, new, push_code_preview,
}

abbrev pub Below : ℕ → Str × ℕ → Type 0
Below n p = p.1 < n

pub record IsValid (c : CompactState) : Type 0 where
  pub bead_bound : length c.beads ≤ max_trail_beads
  pub tools : All (Below (length c.beads)) c.by_tool
  pub preview_bound : length c.code_previews ≤ max_code_previews

All-retain {ℓ κ} :
    {A : Type ℓ} (P : A → Type κ) (p : A → Bool) (xs : List A) → All P xs → All P (retain p xs)
All-retain P p [] h = h
All-retain P p (x ∷ xs) h = elim (Bool-cases (p x)) [
  | inl e ↦ rw e (h.0, All-retain P p xs h.1)
  | inr e ↦ rw e (All-retain P p xs h.1)
]

All-more : (n : ℕ) (m : List (Str × ℕ)) → All (Below n) m → All (Below (suc n)) m
All-more n [] h = tt
All-more n (p ∷ m) h = (omega (arith, h.0), All-more n m h.1)

All-shift_down : (n : ℕ) (m : List (Str × ℕ)) → All (Below (suc n)) m → All (Below n) (shift_down m)
unfolding shift_down
All-shift_down n [] h = tt
All-shift_down n ((id, zero) ∷ m) h = All-shift_down n m h.1
All-shift_down n ((id, suc i) ∷ m) h = (omega (arith, h.0), All-shift_down n m h.1)

length-update_at {ℓ} :
    {A : Type ℓ} (i : ℕ) (f : A → A) (xs : List A) → length (update_at i f xs) ≡ length xs
unfolding update_at
length-update_at i f [] = refl
length-update_at zero f (x ∷ xs) = refl
length-update_at (suc i) f (x ∷ xs) = ap suc (length-update_at i f xs)

drop-one {ℓ} : {A : Type ℓ} (n : ℕ) (xs : List A) → length xs ≡ suc n → length (drop 1 xs) ≡ n
drop-one n xs h = omega (arith, length-drop 1 xs)

abbrev Roomy : CompactState → CompactState → Type 0
Roomy c r =
    (length r.beads < max_trail_beads)
    × All (Below (length r.beads)) r.by_tool
    × (r.code_previews ≡ c.code_previews)

make_room-Roomy : (c : CompactState) → IsValid c → Roomy c (make_room c)
unfolding make_room
make_room-Roomy c v = elim (Bool-cases (length c.beads == max_trail_beads)) [
  | inl e ↦ rw e (
    omega (arith, fewer (full c e)),
    subst (λ n. All (Below n) (shift_down c.by_tool)) (sym (fewer (full c e)))
        (All-shift_down 31 c.by_tool (subst (λ n. All (Below n) c.by_tool) (full c e) v.tools)),
    refl,
  )
  | inr e ↦ rw e (ground (arith, e, v.bead_bound), v.tools, refl)
]
  where
    full : (c : CompactState) → (length c.beads == max_trail_beads) ≡ true → length c.beads ≡ 32
    full c e = ground (arith, e)

    fewer : length c.beads ≡ 32 → length (drop 1 c.beads) ≡ 31
    fewer h = drop-one 31 c.beads h

get_elem?-last {ℓ} :
    {A : Type ℓ} (xs : List A) (x : A) → get_elem? (xs ++ x ∷ []) (length xs) ≡ some x
get_elem?-last [] x = refl
get_elem?-last (y ∷ xs) x = get_elem?-last xs x

-- The new bead is there, the index names it, and the state is valid.
pub push_bead-IsValid :
    (kind : TrailKind) (now : ℤ) (c : CompactState)
    → IsValid c
    → IsValid (push_bead kind now c).0
      × (get_elem? (push_bead kind now c).0.beads (push_bead kind now c).1 ≡ some (bead kind now))
      × ((push_bead kind now c).1 < length (push_bead kind now c).0.beads)
unfolding push_bead
push_bead-IsValid kind now c v =
    let (small, below, same) = make_room-Roomy c v in
    let one_more = length-append (make_room c).beads (bead kind now ∷ []) in
    (
      record {
        bead_bound = omega (arith, one_more, small);
        tools =
            subst (λ n. All (Below n) (make_room c).by_tool) (omega (arith, one_more))
              (All-more (length (make_room c).beads) (make_room c).by_tool below);
        preview_bound = subst (λ ps. length ps ≤ max_code_previews) (sym same) v.preview_bound;
      },
      get_elem?-last (make_room c).beads (bead kind now),
      omega (arith, one_more),
    )

-- A valid state stays valid when a tool starts.
pub tool_started-IsValid :
    (id name title : Str) (now : ℤ) (c : CompactState)
    → IsValid c
    → IsValid (tool_started id name title now c)
unfolding tool_started insert_tool
tool_started-IsValid id name title now c v =
    let (w, found, below) = push_bead-IsValid (from_tool name) now c v in
    record {
      bead_bound = w.bead_bound;
      tools = (below, All-retain _ _ (push_bead (from_tool name) now c).0.by_tool w.tools);
      preview_bound = w.preview_bound;
    }

-- The bead that the state holds for a tool.
abbrev pub bead_of : Str → CompactState → Option Bead
bead_of id c = elim (lookup_tool id c.by_tool) [ none ↦ none | some i ↦ get_elem? c.beads i ]

lookup_tool-insert_tool :
    (id : Str) (i : ℕ) (m : List (Str × ℕ)) → lookup_tool id (insert_tool id i m) ≡ some i
unfolding lookup_tool insert_tool
lookup_tool-insert_tool id i m = rw (str_eq_refl id) refl

-- In a valid state, the tool that starts is recorded with a bead of its kind.
pub bead_of-tool_started :
    (id name title : Str) (now : ℤ) (c : CompactState)
    → IsValid c
    → bead_of id (tool_started id name title now c) ≡ some (bead (from_tool name) now)
unfolding tool_started
bead_of-tool_started id name title now c v =
    let (w, found, below) = push_bead-IsValid (from_tool name) now c v in
    ap
      (λ (o : Option ℕ). elim o [
        | none ↦ none
        | some i ↦ get_elem? (push_bead (from_tool name) now c).0.beads i
      ])
      (lookup_tool-insert_tool id (push_bead (from_tool name) now c).1
        (push_bead (from_tool name) now c).0.by_tool)
    ∙ found

get_elem?-append {ℓ} :
    {A : Type ℓ} (xs ys : List A) (i : ℕ) → i < length xs → get_elem? (xs ++ ys) i ≡ get_elem? xs i
get_elem?-append [] ys i h = absurd (omega arith)
get_elem?-append (x ∷ xs) ys zero h = refl
get_elem?-append (x ∷ xs) ys (suc i) h = get_elem?-append xs ys i (omega arith)

lookup_tool-shift_down :
    (id : Str) (m : List (Str × ℕ)) (i : ℕ)
    → lookup_tool id m ≡ some (suc i)
    → lookup_tool id (shift_down m) ≡ some i
unfolding lookup_tool shift_down
lookup_tool-shift_down id [] i h = absurd (ground (arith, h))
lookup_tool-shift_down id ((k, zero) ∷ m) i h = elim (Bool-cases (str_eq k id)) [
  | inl e ↦ absurd (ground (arith, e, h))
  | inr e ↦ lookup_tool-shift_down id m i (ground (arith, e, h))
]
lookup_tool-shift_down id ((k, suc j) ∷ m) i h = elim (Bool-cases (str_eq k id)) [
  | inl e ↦ ground (arith, e, h)
  | inr e ↦ ground (arith, e, h, lookup_tool-shift_down id m i)
]

drop-get_elem? {ℓ} :
    {A : Type ℓ} (xs : List A) (i : ℕ) → get_elem? (drop 1 xs) i ≡ get_elem? xs (suc i)
drop-get_elem? [] i = refl
drop-get_elem? (x ∷ xs) i = refl

bead_of-found :
    (id : Str) (c : CompactState) (i : ℕ)
    → lookup_tool id c.by_tool ≡ some i
    → bead_of id c ≡ get_elem? c.beads i
bead_of-found id c i h =
    ap (λ (o : Option ℕ). elim o [ none ↦ none | some j ↦ get_elem? c.beads j ]) h

-- A bead that is pushed leaves the bead of a running tool in place, unless that is the oldest one,
-- if the index of the tool is in range.
pub bead_of-push_bead :
    (kind : TrailKind) (now : ℤ) (c : CompactState) (id : Str) (i : ℕ)
    → lookup_tool id c.by_tool ≡ some (suc i)
    → suc i < length c.beads
    → bead_of id (push_bead kind now c).0 ≡ bead_of id c
unfolding push_bead make_room
bead_of-push_bead kind now c id i h lt = elim (Bool-cases (length c.beads == max_trail_beads)) [
  | inl e ↦ moved_down e ∙ sym (bead_of-found id c (suc i) h)
  | inr e ↦ kept e ∙ sym (bead_of-found id c (suc i) h)
]
  where
    moved_down :
        (length c.beads == max_trail_beads) ≡ true
        → bead_of id (push_bead kind now c).0 ≡ get_elem? c.beads (suc i)
    moved_down e =
        bead_of-found id (push_bead kind now c).0 i (rw e (lookup_tool-shift_down id c.by_tool i h))
        ∙ rw e (
            get_elem?-append (drop 1 c.beads) (bead kind now ∷ []) i
              (omega (arith, length-drop 1 c.beads, lt)))
        ∙ drop-get_elem? c.beads i

    kept :
        (length c.beads == max_trail_beads) ≡ false
        → bead_of id (push_bead kind now c).0 ≡ get_elem? c.beads (suc i)
    kept e =
        bead_of-found id (push_bead kind now c).0 (suc i) (rw e h)
        ∙ rw e (get_elem?-append c.beads (bead kind now ∷ []) (suc i) lt)

finish_tool_bead-IsValid :
    (o : Option ℕ) (ok has_diff : Bool) (c : CompactState)
    → IsValid c
    → IsValid (finish_tool_bead o ok has_diff c)
unfolding finish_tool_bead
finish_tool_bead-IsValid none ok has_diff c v = v
finish_tool_bead-IsValid (some i) ok has_diff c v =
    let same = length-update_at i (finish_bead ok) c.beads in
    record {
      bead_bound = omega (arith, same, v.bead_bound);
      tools = subst (λ n. All (Below n) c.by_tool) (sym same) v.tools;
      preview_bound = v.preview_bound;
    }

forget-IsValid :
    (id : Str) (c : CompactState)
    → IsValid c
    → IsValid (record c { by_tool = remove_tool id c.by_tool })
unfolding remove_tool
forget-IsValid id c v = record {
  bead_bound = v.bead_bound;
  tools = All-retain _ _ c.by_tool v.tools;
  preview_bound = v.preview_bound;
}

-- A valid state stays valid when a tool finishes, whether it had a bead or not.
pub tool_finished-IsValid :
    (id : Str) (ok : Bool) (failure path : Option Str) (has_diff : Bool) (now : ℤ)
    (c : CompactState)
    → IsValid c
    → IsValid (tool_finished id ok failure path has_diff now c)
unfolding tool_finished remove_tool
tool_finished-IsValid id true failure path has_diff now c v =
    finish_tool_bead-IsValid (lookup_tool id c.by_tool) true has_diff _ (forget-IsValid id c v)
tool_finished-IsValid id false failure path has_diff now c v =
    let w =
      finish_tool_bead-IsValid (lookup_tool id c.by_tool) false has_diff _
        (forget-IsValid id c v) in
    record { bead_bound = w.bead_bound; tools = w.tools; preview_bound = w.preview_bound }

kept_last {ℓ} :
    {A : Type ℓ} (xs : List A) (x : A)
    → length (drop (length (xs ++ x ∷ []) - max_code_previews) (xs ++ x ∷ [])) ≤ max_code_previews
kept_last xs x =
    omega (arith, length-drop (length (xs ++ x ∷ []) - max_code_previews) (xs ++ x ∷ []))

-- A valid state stays valid when a preview is added: the last ones are kept.
pub push_code_preview-IsValid :
    (path : Str) (diff : List DiffLine) (now : ℤ) (c : CompactState)
    → IsValid c
    → IsValid (push_code_preview path diff now c)
unfolding push_code_preview
push_code_preview-IsValid path diff now c v = elim (Bool-cases (is_empty diff)) [
  | inl e ↦ rw e v
  | inr e ↦ rw e (record {
    bead_bound = v.bead_bound;
    tools = v.tools;
    preview_bound = kept_last c.code_previews _;
  })
]

-- A valid state stays valid when an agent starts.
pub agent_start-IsValid :
    (n : ℕ) (title : Str) (now : ℤ) (c : CompactState)
    → IsValid c
    → IsValid (agent_start n title now c)
unfolding agent_start
agent_start-IsValid n title now c v =
    (push_bead-IsValid agent now _
      (record { bead_bound = v.bead_bound; tools = v.tools; preview_bound = v.preview_bound })).0

-- The other operations change nothing that is bounded.
pub agent_done-IsValid :
    (n : ℕ) (ok : Bool) (now : ℤ) (c : CompactState) → IsValid c → IsValid (agent_done n ok now c)
unfolding agent_done
agent_done-IsValid n ok now c v = record {
  bead_bound = v.bead_bound;
  tools = v.tools;
  preview_bound = v.preview_bound;
}

pub plan-IsValid : (items : List PlanItem) (c : CompactState) → IsValid c → IsValid (plan items c)
unfolding plan
plan-IsValid items c v = record {
  bead_bound = v.bead_bound;
  tools = v.tools;
  preview_bound = v.preview_bound;
}

pub new-IsValid : IsValid new
new-IsValid = record { bead_bound = ground arith; tools = tt; preview_bound = ground arith }
