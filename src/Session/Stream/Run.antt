-- ===== src/Session/Stream/Run.antt =====
-- crates/inline/src/session.rs: any run of tokens of several replies, with printing in between.
use camouflage.Prelude.{ℕ, refl, Option, none, some, List, [], ◌∷◌, ◌++◌, append-nil, append_assoc}
use camouflage.Prelude.Int.{ℤ}
use camouflage.Text.{Str, str_eq}
use camouflage.Session.{Session}
use camouflage.Session.Maps.{lookup}
use camouflage.Session.Stream.{
  token_delta, before_token, append_token, stream_at, open_stream, split_streaming_paragraphs,
}
use camouflage.Session.Stream.Keeps.{before_token-Keeps}
use camouflage.Session.Stream.Sound.{Sound, Keeps-Sound, change_block-Sound, open_stream-Sound}
use camouflage.Session.Stream.Interleaved.{Streams, Keeps-Streams, append_token-Streams, added}
use camouflage.Session.Stream.Paragraph.{Printed, split_streaming_paragraphs-Printed}
use camouflage.Session.Stream.Split.{split_streaming_paragraphs-KeepsStreams}

-- What may happen while a reply streams: a token of some stream, or a paragraph is printed.
pub data Step : Type 0 where
  token : Str → Str → ℤ → Step
  printing : Step

unfoldable pub apply_step : Step → Session → Session
apply_step (token sid t now) s = token_delta sid t now s
apply_step printing s = split_streaming_paragraphs s

unfoldable pub run : List Step → Session → Session
run [] s = s
run (x ∷ xs) s = run xs (apply_step x s)

-- The tokens of one stream, in order.
abbrev pub said_by : Str → Step → Str
said_by sid (token other t now) = added sid other t
said_by sid printing = []

unfoldable pub said : Str → List Step → Str
said sid [] = []
said sid (x ∷ xs) = said_by sid x ++ said sid xs

append_token-Sound :
    (sid t : Str) (o : Option ℕ) (s : Session)
    → Sound s
    → Sound (append_token t (stream_at o sid s))
unfolding append_token stream_at
append_token-Sound sid t (some id) s h = change_block-Sound id _ s h
append_token-Sound sid t none s h =
    change_block-Sound (open_stream sid s).1 _ (open_stream sid s).0 (open_stream-Sound sid s h)

apply_step-Sound : (x : Step) (s : Session) → Sound s → Sound (apply_step x s)
unfolding apply_step token_delta
apply_step-Sound (token sid t now) s h =
    let counted = before_token sid t now s in
    append_token-Sound sid t (lookup str_eq sid counted.streams) counted
      (Keeps-Sound s counted (before_token-Keeps sid t now s) h)
apply_step-Sound printing s h = (split_streaming_paragraphs-KeepsStreams s).0 h

apply_step-Streams :
    (sid text : Str) (x : Step) (s : Session)
    → Sound s
    → Streams sid text s
    → Streams sid (text ++ said_by sid x) (apply_step x s)
unfolding apply_step token_delta
apply_step-Streams sid text (token other t now) s so h =
    let counted = before_token other t now s in
    let kept = before_token-Keeps other t now s in
    append_token-Streams sid other t text (lookup str_eq other counted.streams) counted refl
      (Keeps-Sound s counted kept so) (Keeps-Streams sid text s counted kept h)
apply_step-Streams sid text printing s so h =
    rw (append-nil text) ((split_streaming_paragraphs-KeepsStreams s).1 sid text so h)

run-whole :
    (sid text : Str) (xs : List Step) (s : Session)
    → Sound s
    → Streams sid text s
    → Sound (run xs s) × Streams sid (text ++ said sid xs) (run xs s)
unfolding run said
run-whole sid text [] s so h = (so, rw (append-nil text) h)
run-whole sid text (x ∷ xs) s so h = rw⁻¹ (append_assoc text (said_by sid x) (said sid xs)) (
    run-whole sid (text ++ said_by sid x) xs (apply_step x s) (apply_step-Sound x s so)
      (apply_step-Streams sid text x s so h))

-- Each time that a paragraph may be printed in a run, what is printed is the beginning of the reply.
unfoldable pub Told : List Step → Session → Type 0
Told [] s = Unit
Told (token sid t now ∷ xs) s = Told xs (apply_step (token sid t now) s)
Told (printing ∷ xs) s = Printed s (apply_step printing s) × Told xs (apply_step printing s)

run-Told : (xs : List Step) (s : Session) → Told xs s
unfolding Told apply_step
run-Told [] s = tt
run-Told (token sid t now ∷ xs) s = run-Told xs (apply_step (token sid t now) s)
run-Told (printing ∷ xs) s =
    (split_streaming_paragraphs-Printed s, run-Told xs (apply_step printing s))

-- From a session whose entries have different identifiers and whose open streams have different
-- entries, in any run of tokens of this and of other streams, with first paragraphs printed in
-- between, nothing of an open reply is lost, repeated or mixed up: what is noted as printed of it and
-- what is held is what it was, followed by its own tokens in order. Each time a paragraph is printed,
-- the entry that is done and the text noted as printed are the beginning of the text held, the entry
-- without the blank end and the newlines behind it.
pub run-Streams :
    (sid text : Str) (xs : List Step) (s : Session)
    → Sound s
    → Streams sid text s
    → Sound (run xs s) × Streams sid (text ++ said sid xs) (run xs s) × Told xs s
run-Streams sid text xs s so h = let (a, b) = run-whole sid text xs s so h in (a, b, run-Told xs s)
