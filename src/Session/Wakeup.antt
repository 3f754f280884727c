-- ===== src/Session/Wakeup.antt =====
-- crates/inline/src/session.rs: when the next frame is drawn.
use native.Mathlib.Nat.{mod-lt}
use camouflage.Prelude.{
  ℕ, ◌+◌, ◌*◌, ◌/◌, ◌<◌, ◌≡◌, refl, Bool, true, false, not, ◌&&◌, Option, none, some, is_some,
  Bool-cases, arith, inl, inr,
}
use camouflage.Prelude.Int.{
  ℤ, pos, negsuc, pos_part, neg_part, ◌+ℤ◌, ◌-ℤ◌, ltb_ℤ, +ℤ_parts, -ℤ_parts,
}
use camouflage.Activity.{any_active}
use camouflage.Session.{Session, is_busy}
use camouflage.Session.Printed.{
  rem_euclid, next_multiple, next_since, frame_length, next_frame, want, is_animated, foot_until,
  exit_until, want_until, next_wakeup,
}

infix 50 ◌<ℤ◌
abbrev pub ◌<ℤ◌ : ℤ → ℤ → Type 0
a <ℤ b = pos_part a + neg_part b < pos_part b + neg_part a

rem_euclid-bound : (now : ℤ) (k : ℕ) → 0 < k → rem_euclid now k < k
rem_euclid-bound (pos n) k h = mod-lt n h
rem_euclid-bound (negsuc n) k h = omega arith

next_multiple-later : (now : ℤ) (k : ℕ) → 0 < k → now <ℤ next_multiple now k
unfolding next_multiple
next_multiple-later now k h = omega (
  arith,
  rem_euclid-bound now k h,
  +ℤ_parts now (pos k),
  -ℤ_parts (now +ℤ pos k) (pos (rem_euclid now k)),
)

next_since-later :
    (since now : ℤ) (focused : Bool) → now <ℤ next_since since now (frame_length focused)
unfolding next_since
next_since-later since now true =
    omega
      (arith, -ℤ_parts now since, +ℤ_parts since (pos ((pos_part (now -ℤ since) / 80 + 1) * 80)))
next_since-later since now false =
    omega (
      arith,
      -ℤ_parts now since,
      +ℤ_parts since (pos ((pos_part (now -ℤ since) / 1000 + 1) * 1000)),
    )

next_frame-later :
    (since : Option ℤ) (focused : Bool) (now : ℤ) → now <ℤ next_frame since focused now
unfolding next_frame
next_frame-later (some since) focused now = next_since-later since now focused
next_frame-later none true now = next_multiple-later now 80 (omega arith)
next_frame-later none false now = next_multiple-later now 1000 (omega arith)

abbrev pub Later : ℤ → Option ℤ → Type 0
Later now none = Unit
Later now (some t) = now <ℤ t

want-Later :
    (wanted : Bool) (now t : ℤ) (next : Option ℤ)
    → (wanted ≡ true → now <ℤ t)
    → Later now next
    → Later now (want wanted t next)
unfolding want
want-Later true now t none h l = h refl
want-Later false now t none h l = tt
want-Later true now t (some n) h l = elim (Bool-cases (ltb_ℤ t n)) [
  | inl c ↦ rw c (h refl)
  | inr c ↦ rw c l
]
want-Later false now t (some n) h l = l

want_until-Later :
    (wanted : Bool) (o : Option ℤ) (now : ℤ) (next : Option ℤ)
    → Later now next
    → Later now (want_until wanted o now next)
unfolding want_until
want_until-Later wanted none now next l = l
want_until-Later wanted (some t) now next l =
    want-Later (wanted && ltb_ℤ now t) now t next (λ e. ground (arith, e)) l

-- A session that waits is woken after now, never at once or in the past: the loop does not spin.
pub next_wakeup-Later : (s : Session) (now : ℤ) → Later now (next_wakeup s now)
unfolding next_wakeup
next_wakeup-Later s now = want_until-Later true (exit_until s.ctrl_c_at) now _ (
    want_until-Later true (foot_until s.foot) now _ (
      want_until-Later (not (is_busy s)) s.status_until now _ (
        want-Later (is_some s.browser && any_active s.activity) now (next_multiple now 1000) _
          (λ e. next_multiple-later now 1000 (omega arith))
          (want-Later (is_animated s) now (next_frame s.busy_since s.focused now) none
            (λ e. next_frame-later s.busy_since s.focused now) tt))))
