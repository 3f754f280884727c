-- ===== src/Lib.antt =====
-- Verification library of the camouflage terminal renderer.
--
-- The program draws an agent session in a terminal. A host sends events (crates/protocol); the
-- session (crates/inline/src/session.rs) keeps the transcript, asks the host's questions, and owns
-- the prompt editor, the activity browser and the compact live region. What the user answers goes
-- back to the host as outbound events.
--
-- The parts and their files:
--   Prelude    booleans, lists and integers over the native numbers, shared by all files
--   Text       Rust's `str` as a list of bytes in UTF-8; a slice is a cut of that list, and
--              Text.Boundary says where a cut does not panic
--   Protocol   crates/protocol/src/lib.rs: the event types and their names
--   Width      crates/inline/src/width.rs: display width, shortening, and Wrap, the word wrap
--   Style      crates/inline/src/style.rs: colors, styles, spans, lines; Encode, a line as
--              terminal bytes, which Scan reads back byte by byte, and Adds with `parse_ansi`
--   Editor     crates/inline/src/editor.rs: Motion (graphemes and words), Rows (visual rows), Chips
--              (collapsed pastes), Handle (the keys); the other children prove
--   Blocks     crates/inline/src/blocks.rs: the blocks of the transcript
--   Shell      crates/inline/src/blocks.rs: which tools (Tools) and shell commands (cut up in Scan)
--              only read
--   Ansi       crates/inline/src/ansi.rs: `parse_ansi` as a fold of a step over the characters
--   Compact    crates/inline/src/compact.rs: the live region's bounded state
--   Key        crates/inline/src/session.rs: key presses
--   Json       the accessors of serde_json that the program calls, as a record
--   Activity   crates/inline/src/activity.rs: the list of jobs and agents, and View, its browser
--   Session    crates/inline/src/session.rs: the state, its entries and `settle`; Ask (a prompt and
--              its filter), Prompts (opening and answering), Stream (replies that stream in, and the
--              paragraphs printed meanwhile), Requests (what the host asks), Notices (lines, plan,
--              tasks, output), Tools (start and finish), Status (footer, activities, tables), Apply
--              (all events), Picker and Keys (`handle_key`), Wizard (its steps and their answers),
--              Printed (what the terminal loop takes). Valid is the invariant of a whole run
--   Diff       crates/inline/src/diff.rs: Script and Longest prove
--   Form       crates/inline/src/form.rs: forms and their keys
--   Decoder    crates/headless/src/lib.rs: `parse_line` behind the JSON parser, with the numbers
--              of each session; Sequence proves
--   Auth       crates/headless/src/broadcast_auth.rs: the token of a handshake
--   Validate   crates/headless/src/validate.rs: the strict check of a stream
--   Tests      concrete runs
--
-- State and operations: a struct is a record with the fields of the source, and a method that
-- changes `self` is a function from the state to the new state, with its result beside it where it
-- has one; a method that appends to a buffer gives what it appends. The name is that of the source
-- where the language allows it. A loop is recursion on the list that it goes over. Three have fuel:
-- the decimal print of a number, one more than the number, which is more than its digits; the loop
-- over the answers to a wizard, one more than the events for the host, since each turn but the last
-- passes over one or takes one away (it gives no result when the turns are used up); the loop of `wrap`, one more than twice the cells, since a round takes a cell
-- off or gives a word a row of its own. The numbers of
-- events and the line numbers of a diff wrap as in a build that does not check overflow. Times are
-- integers without bounds, lengths and indices natural numbers: the program's own limits are far
-- below those of its 64-bit types.
--
-- Parameters: grapheme segmentation and display width (the crates unicode-segmentation and
-- unicode-width, as `Unicode`, with the documented properties `IsSegmentation`), Unicode lower case
-- and upper case, how a block is drawn in lines, JSON values, the deserializers behind the check of
-- a payload, and the HTTP request of a handshake.
--
-- Not modelled: the drawing of blocks, chrome and markdown, with the theme, the accent color, the
-- switch that expands tool output and the rows of a diff at a prompt, and the animation; terminal
-- input and output, the event store, the network server, the bindings.
pub mod Prelude
pub mod Text
pub mod Protocol
pub mod Width
pub mod Editor
pub mod Style
pub mod Blocks
pub mod Ansi
pub mod Compact
pub mod Key
pub mod Json
pub mod Activity
pub mod Session
pub mod Shell
pub mod Diff
pub mod Form
pub mod Decoder
pub mod Auth
pub mod Validate
pub mod Tests
