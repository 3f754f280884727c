-- ===== src/Session/Stream/Keeps.antt =====
-- crates/inline/src/session.rs: what a change of entries keeps: their identifiers, and the texts of the
-- replies.
use camouflage.Prelude.{
  ℕ, ◌≡◌, refl, ap, ◌∙◌, Bool, true, false, Option, none, some, is_some, ◌==◌, if◌then◌else◌,
}
use camouflage.Prelude.Int.{ℤ}
use camouflage.Text.{Str, str_eq, is_blank}
use camouflage.Blocks.{Block, assistant}
use camouflage.Session.{
  Session, Entry, update_entry, find_block, finish, finish_group_if_done, group_done, close_block,
  close_open, close_group, became_busy,
}
use camouflage.Session.Maps.{lookup, remove}
use camouflage.Session.Stream.{end_reasoning, end_reasoning_at, before_token}
use camouflage.Session.Stream.Updates.{
  ids, Changes, ids-update_entry, changed_if, find_block-update_entry,
}

-- A step that leaves the identifiers and the streams alone, and the text of every reply.
pub record Keeps (a b : Session) : Type 0 where
  pub streams_is : b.streams ≡ a.streams
  pub next_is : b.next_id ≡ a.next_id
  pub prefix_is : b.printed_prefix ≡ a.printed_prefix
  pub ids_is : ids b.entries ≡ ids a.entries
  pub texts :
      (k : ℕ) (md : Str)
      → find_block k a.entries ≡ some (assistant md)
      → find_block k b.entries ≡ some (assistant md)

pub Keeps-refl : (s : Session) → Keeps s s
Keeps-refl s = record {
  streams_is = refl;
  next_is = refl;
  prefix_is = refl;
  ids_is = refl;
  texts = λ k md h. h;
}

pub Keeps-trans : (a b c : Session) → Keeps a b → Keeps b c → Keeps a c
Keeps-trans a b c h i = record {
  streams_is = i.streams_is ∙ h.streams_is;
  next_is = i.next_is ∙ h.next_is;
  prefix_is = i.prefix_is ∙ h.prefix_is;
  ids_is = i.ids_is ∙ h.ids_is;
  texts = λ k md e. i.texts k md (h.texts k md e);
}

-- A step that changes none of the fields that matter.
pub Keeps-fields :
    (a b : Session)
    → b.streams ≡ a.streams
    → b.next_id ≡ a.next_id
    → b.printed_prefix ≡ a.printed_prefix
    → b.entries ≡ a.entries
    → Keeps a b
Keeps-fields a b st ne pr en = record {
  streams_is = st;
  next_is = ne;
  prefix_is = pr;
  ids_is = ap ids en;
  texts = λ k md h. ap (find_block k) en ∙ h;
}

Keeps-if : (a x y : Session) (b : Bool) → Keeps a x → Keeps a y → Keeps a (if b then x else y)
Keeps-if a x y true h i = h
Keeps-if a x y false h i = i

changed_if-same :
    (g : Block → Block) (b : Bool) (o : Option Block) (md : Str)
    → g (assistant md) ≡ assistant md
    → o ≡ some (assistant md)
    → changed_if g b o ≡ some (assistant md)
changed_if-same g true o md h e = rw e (ap some h)
changed_if-same g false o md h e = e

-- A change of an entry that spares the replies.
Keeps-update :
    (g : Block → Block) (f : Entry → Entry)
    → Changes g f
    → ((md : Str) → g (assistant md) ≡ assistant md)
    → (id : ℕ) (s : Session) → Keeps s (record s { entries = update_entry id f s.entries })
Keeps-update g f c spares id s = record {
  streams_is = refl;
  next_is = refl;
  prefix_is = refl;
  ids_is = ids-update_entry g f c id s.entries;
  texts = λ k md e.
      find_block-update_entry g f c k id s.entries
      ∙ changed_if-same g (k == id) (find_block k s.entries) md (spares md) e;
}

pub finish-Keeps : (id : ℕ) (s : Session) → Keeps s (finish id s)
unfolding finish
finish-Keeps id s =
    Keeps-update (λ b. b) (λ (e : Entry). record e { done = true })
      (record { id_is = λ e. refl; block_is = λ e. refl }) (λ md. refl) id s

finish_group_if_done-Keeps : (gid : ℕ) (s : Session) → Keeps s (finish_group_if_done gid s)
unfolding finish_group_if_done
finish_group_if_done-Keeps gid s =
    Keeps-if s (finish gid s) s (group_done (find_block gid s.entries)) (finish-Keeps gid s)
      (Keeps-refl s)

spares_group : (md : Str) → close_block (assistant md) ≡ assistant md
spares_group md = refl

close_open-Keeps : (o : Option ℕ) (s : Session) → Keeps s (close_open o s)
unfolding close_open
close_open-Keeps none s = Keeps-refl s
close_open-Keeps (some gid) s = Keeps-trans s closed _ kept (finish_group_if_done-Keeps gid closed)
  where
    closed : Session
    closed = record s {
      open_group = none;
      entries =
          update_entry gid (λ (e : Entry). record e { block = close_block e.block }) s.entries;
    }

    kept : Keeps s closed
    kept =
        Keeps-trans s (record s { open_group = none }) closed
          (Keeps-fields s (record s { open_group = none }) refl refl refl refl)
          (Keeps-update close_block (λ (e : Entry). record e { block = close_block e.block })
            (record { id_is = λ e. refl; block_is = λ e. refl }) spares_group gid
            (record s { open_group = none }))

pub close_group-Keeps : (s : Session) → Keeps s (close_group s)
unfolding close_group
close_group-Keeps s = close_open-Keeps s.open_group s

pub became_busy-Keeps : (now : ℤ) (s : Session) → Keeps s (became_busy now s)
unfolding became_busy
became_busy-Keeps now s =
    Keeps-if s s _ (is_some s.busy_since) (Keeps-refl s) (Keeps-fields s _ refl refl refl refl)

end_reasoning_at-Keeps :
    (o : Option ℕ) (sid : Str) (s : Session) → Keeps s (end_reasoning_at o sid s)
unfolding end_reasoning_at
end_reasoning_at-Keeps none sid s = Keeps-refl s
end_reasoning_at-Keeps (some rid) sid s =
    let removed : Session = record s { reasoning = remove str_eq sid s.reasoning } in
    Keeps-trans s removed _ (Keeps-fields s removed refl refl refl refl) (finish-Keeps rid removed)

pub before_token-Keeps :
    (sid token : Str) (now : ℤ) (s : Session) → Keeps s (before_token sid token now s)
unfolding before_token end_reasoning
before_token-Keeps sid token now s = Keeps-trans s woken _ woken-Keeps (
    Keeps-trans woken rested _
      (end_reasoning_at-Keeps (lookup str_eq sid woken.reasoning) sid woken)
      (Keeps-fields rested _ refl refl refl refl))
  where
    busy : Session
    busy = became_busy now s

    woken : Session
    woken = if is_blank token then s else close_group busy

    rested : Session
    rested = end_reasoning_at (lookup str_eq sid woken.reasoning) sid woken

    woken-Keeps : Keeps s woken
    woken-Keeps =
        Keeps-if s s (close_group busy) (is_blank token) (Keeps-refl s)
          (Keeps-trans s busy _ (became_busy-Keeps now s) (close_group-Keeps busy))
