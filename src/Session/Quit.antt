-- ===== src/Session/Quit.antt =====
-- crates/inline/src/session.rs: Ctrl+C leaves the program.
use camouflage.Prelude.{
  ℕ, ◌≡◌, refl, ap, ◌∙◌, Bool, true, false, not, ◌&&◌, ◌||◌, Option, none, some, is_some, List, [],
  if◌then◌else◌, ◌==◌, Bool-cases, is_empty, any, retain, All, arith, inl, inr,
}
use camouflage.Prelude.Int.{ℤ, ◌-ℤ◌, ltb_ℤ}
use camouflage.Blocks.{Block, notice, interrupted}
use camouflage.Protocol.{cancel_requested}
use camouflage.Editor.{Editor}
use camouflage.Editor.Handle.{clear}
use camouflage.Compact
use camouflage.Session.{
  Session, Entry, is_busy, find_block, group_done, finish, finish_group_if_done, close_open,
  close_group, keeps_group, push, push_quiet, push_done, open_items, settle_entries, settle_plan,
  show_first, show_queued_prompt, interrupted_text, settle, empty, keep_prompt, send, interrupt,
}
use camouflage.Session.Ask.{Prompt, is_permission}
use camouflage.Key.{ctrl}
use camouflage.Text.{Str}
use camouflage.Width.{Unicode}
use camouflage.Form.{FormState}
use camouflage.Activity.View.{View}
use camouflage.Session.Keys.{
  handle_key, route, editor_key, global_key, global_ctrl, press_ctrl_c, within_window, arm_exit,
  ctrl_c_window_ms,
}
use camouflage.Session.Settle.{settle-Rest}
use camouflage.Session.Still.{Consistent}

-- What decides who a key is for, and the prompt editor.
abbrev Parts : Type 0
Parts = Editor × Option FormState × Option View × Option Prompt × List Prompt

abbrev parts : Session → Parts
parts s = (s.editor, s.form, s.browser, s.prompt, s.queued_prompts)

-- These are the same in both sessions.
abbrev Same : Session → Session → Type 0
Same a b = parts b ≡ parts a

Same-if : (c : Bool) (s a b : Session) → Same s a → Same s b → Same s (if c then a else b)
Same-if true s a b p q = p
Same-if false s a b p q = q

finish_group-Same : (gid : ℕ) (s : Session) → Same s (finish_group_if_done gid s)
unfolding finish_group_if_done finish
finish_group-Same gid s =
    Same-if (group_done (find_block gid s.entries)) s (finish gid s) s refl refl

close_open-Same : (o : Option ℕ) (s : Session) → Same s (close_open o s)
unfolding close_open
close_open-Same none s = refl
close_open-Same (some gid) s = finish_group-Same gid _

push_done-Same : (b : Block) (s : Session) → Same s (push_done b s)
unfolding push_done push push_quiet close_group
push_done-Same b s = Same-if (keeps_group b) s s _ refl (close_open-Same s.open_group s)

settle_plan-Same : (by_user : Bool) (s : Session) → Same s (settle_plan by_user s)
unfolding settle_plan
settle_plan-Same by_user s =
    Same-if (by_user && open_items s.plan) s _ (record s { plan = none })
      (push_done-Same _ (record s { plan = none })) refl

-- The end of `settle`, with the prompts it finds.
abbrev closing : Option Prompt → List Prompt → Session → Session
closing o ps t = show_queued_prompt (record t {
  busy_since = none;
  prompt = keep_prompt o;
  queued_prompts = retain (λ (p : Prompt). not (is_permission p)) ps;
})

-- The editor, the form and the browser of the session, without a prompt.
abbrev unasked : Session → Parts
unasked s = (s.editor, s.form, s.browser, none, [])

closing-unasked :
    (s t : Session)
    → Same s t
    → s.prompt ≡ none
    → s.queued_prompts ≡ []
    → parts (closing t.prompt t.queued_prompts t) ≡ unasked s
unfolding show_queued_prompt show_first keep_prompt
closing-unasked s t e p q =
    ap (λ o. parts (closing o t.queued_prompts t)) (ap (λ (x : Parts). x.3) e ∙ p)
    ∙ ap (λ ps. parts (closing none ps t)) (ap (λ (x : Parts). x.4) e ∙ q)
    ∙ ap (λ (x : Parts). (x.0, x.1, x.2, none, [])) e

-- When no prompt is open or waits, none is after `settle`, and the editor, the form and the browser stay.
settle-unasked :
    (now : ℤ) (by_user : Bool) (s : Session)
    → s.prompt ≡ none
    → s.queued_prompts ≡ []
    → parts (settle now by_user s) ≡ unasked s
unfolding settle
settle-unasked now by_user s p q =
    closing-unasked s (if told then noticed else cleared)
      (Same-if told s noticed cleared (push_done-Same _ cleared ∙ settle_plan-Same by_user still)
        (settle_plan-Same by_user still))
      p q
  where
    kept : List Entry
    kept = retain (λ (e : Entry). not (any (λ r. r == e.id) s.plan_rows)) s.entries

    told : Bool
    told = by_user && (is_busy s || any (λ (e : Entry). not e.done) kept)

    still : Session
    still = record s {
      plan_rows = [];
      entries = settle_entries now s.plan_rows s.entries;
      open_group = none;
      streams = [];
      tools = [];
      phase_busy = false;
    }

    cleared : Session
    cleared = record (settle_plan by_user still) {
      compact = Compact.clear (settle_plan by_user still).compact;
    }

    noticed : Session
    noticed = push_done (notice interrupted (interrupted_text s.app_name)) cleared

third :
    (p q r : Bool) (a b c d : Session)
    → p ≡ false
    → q ≡ false
    → r ≡ true
    → (if p then a else if q then b else if r then c else d) ≡ c
third p q r a b c d e f g = rw e (rw f (rw g refl))

interrupt-unasked :
    (now : ℤ) (s : Session)
    → s.prompt ≡ none
    → s.queued_prompts ≡ []
    → parts (interrupt now s) ≡ unasked s
unfolding interrupt send
interrupt-unasked now s p q = settle-unasked now true (send cancel_requested empty s) p q

-- At an empty editor and an idle session, a press within the time of the last one quits.
idle_exit :
    (now : ℤ) (s : Session)
    → not (is_empty s.editor.buf) ≡ false
    → is_busy s ≡ false
    → within_window s.ctrl_c_at now ≡ true
    → (press_ctrl_c now s).exit ≡ true
unfolding press_ctrl_c
idle_exit now s e b w =
    ap (λ (x : Session). x.exit)
      (third (not (is_empty s.editor.buf)) (is_busy s) (within_window s.ctrl_c_at now) _ _
        (record s { exit = true }) _ e b w)

-- A session that is to quit stays so at an idle press.
exit_stays :
    (now : ℤ) (s : Session)
    → not (is_empty s.editor.buf) ≡ false
    → is_busy s ≡ false
    → s.exit ≡ true
    → (press_ctrl_c now s).exit ≡ true
unfolding press_ctrl_c
exit_stays now s e b x = elim (Bool-cases (within_window s.ctrl_c_at now)) [
  | inl w ↦ idle_exit now s e b w
  | inr w ↦
      ap (λ (x : Session). x.exit)
        (last (not (is_empty s.editor.buf)) (is_busy s) (within_window s.ctrl_c_at now) _ _ _
          (arm_exit now s) e b w)
      ∙ x
]
  where
    last :
        (p q r : Bool) (a b c d : Session)
        → p ≡ false
        → q ≡ false
        → r ≡ false
        → (if p then a else if q then b else if r then c else d) ≡ d
    last p q r a b c d e f g = rw e (rw f (rw g refl))

-- The four branches of a press.
four :
    (P : Session → Type 0) (p q r : Bool) (a b c d : Session)
    → (p ≡ true → P a)
    → (p ≡ false → q ≡ true → P b)
    → (p ≡ false → q ≡ false → P c)
    → (p ≡ false → q ≡ false → P d)
    → P (if p then a else if q then b else if r then c else d)
four P true q r a b c d f g h k = f refl
four P false true r a b c d f g h k = g refl refl
four P false false true a b c d f g h k = h refl refl
four P false false false a b c d f g h k = k refl refl

-- Keys are for the editor: neither a form nor a prompt nor the browser is open.
pub record AtEditor (s : Session) : Type 0 where
  pub form : s.form ≡ none
  pub prompt : s.prompt ≡ none
  pub browser : s.browser ≡ none

module _ (u : Unicode) (lowercase : Str → Str) where
  -- Then Ctrl+C reaches the editor.
  handle_key-press_ctrl_c :
      (now : ℤ) (s : Session)
      → AtEditor s
      → handle_key u lowercase (ctrl b'c') now s ≡ press_ctrl_c now s
  unfolding handle_key route editor_key global_key global_ctrl
  handle_key-press_ctrl_c now s o =
      ap (λ f. route u lowercase f (is_some s.prompt) s.browser (ctrl b'c') now s) o.form
      ∙ ap (λ p. route u lowercase none (is_some p) s.browser (ctrl b'c') now s) o.prompt
      ∙ ap (λ v. route u lowercase none false v (ctrl b'c') now s) o.browser

  -- While neither a form nor a prompt nor the browser is open and no prompt waits, two Ctrl+C keys less
  -- than 1.6 seconds apart quit: from an empty editor whether or not a turn runs, and from any text when
  -- no turn runs. It is supposed that no tool of a done entry runs before.
  pub handle_key-exit :
      (t now : ℤ) (s : Session)
      → AtEditor s
      → s.queued_prompts ≡ []
      → All Consistent s.entries
      → (is_empty s.editor.buf || not (is_busy s)) ≡ true
      → ltb_ℤ (now -ℤ t) ctrl_c_window_ms ≡ true
      → (handle_key u lowercase (ctrl b'c') now (handle_key u lowercase (ctrl b'c') t s)).exit
        ≡ true
  unfolding press_ctrl_c is_busy clear send interrupt
  handle_key-exit t now s o q c h w =
      ap (λ x. (handle_key u lowercase (ctrl b'c') now x).exit) (handle_key-press_ctrl_c t s o)
      ∙ four (λ x. (handle_key u lowercase (ctrl b'c') now x).exit ≡ true)
          (not (is_empty s.editor.buf)) (is_busy s) (within_window s.ctrl_c_at t) _ _ _ _ cleared
          stopped
          (λ e b.
            second (record s { exit = true })
              (record { form = o.form; prompt = o.prompt; browser = o.browser })
              (exit_stays now (record s { exit = true }) e b refl))
          (λ e b.
            second (arm_exit t s) (record { form = o.form; prompt = o.prompt; browser = o.browser })
              (idle_exit now (arm_exit t s) e b w))
    where
      second :
          (x : Session)
          → AtEditor x
          → (press_ctrl_c now x).exit ≡ true
          → (handle_key u lowercase (ctrl b'c') now x).exit ≡ true
      second x y e = ap (λ (z : Session). z.exit) (handle_key-press_ctrl_c now x y) ∙ e

      idle : (a b : Bool) → (a || not b) ≡ true → not a ≡ true → b ≡ false
      idle a b h e = ground (arith, h, e)

      cleared :
          not (is_empty s.editor.buf) ≡ true
          → (handle_key u lowercase
              (ctrl b'c')
              now
              (arm_exit t (record s { editor = clear s.editor }))).exit
            ≡ true
      cleared e =
          second (arm_exit t (record s { editor = clear s.editor }))
            (record { form = o.form; prompt = o.prompt; browser = o.browser })
            (idle_exit now (arm_exit t (record s { editor = clear s.editor })) refl
              (idle (is_empty s.editor.buf) (is_busy s) h e) w)

      kept : parts (interrupt t s) ≡ unasked s
      kept = interrupt-unasked t s o.prompt q

      stopped :
          not (is_empty s.editor.buf) ≡ false
          → is_busy s ≡ true
          → (handle_key u lowercase (ctrl b'c') now (arm_exit t (interrupt t s))).exit ≡ true
      stopped e b =
          second (arm_exit t (interrupt t s))
            (record {
              form = ap (λ (x : Parts). x.1) kept ∙ o.form;
              prompt = ap (λ (x : Parts). x.3) kept;
              browser = ap (λ (x : Parts). x.2) kept ∙ o.browser;
            })
            (idle_exit now (arm_exit t (interrupt t s))
              (ap (λ (x : Parts). not (is_empty x.0.buf)) kept ∙ e)
              (settle-Rest t true (send cancel_requested empty s) c).idle w)
