-- ===== src/Examples/Stages.antt =====
-- pkg/parser/parsing_stage.go: a stage with one worker and two items, one of which submits the other.
use askl_golang_indexer.Prelude.{refl, none, some, [], ◌∷◌, arith}
use askl_golang_indexer.Prelude.Texts.{bytes}
use askl_golang_indexer.Index.Directories.{has_text}
use askl_golang_indexer.Parser.Stage.{
  Parsable, StageState, new_stage, submit, Step, receive, hand, start, nest, finish, Reach, fresh,
  called, later,
}
use askl_golang_indexer.Parser.Stage.Complete.{IsComplete, quiet-IsComplete, not_stuck}

data Item : Type 0 where
  importer imported : Item

abbrev items : Parsable Item
items = record {
  id_of = λ item. elim item [ importer ↦ some (bytes "a") | imported ↦ some (bytes "b") ];
  submits = λ item. elim item [ importer ↦ imported ∷ [] | imported ↦ [] ];
  failure = λ item. elim item [ importer ↦ none | imported ↦ some (bytes "bad") ];
}

abbrev submitted : StageState Item
submitted = submit importer new_stage

at_start : Reach items 1 submitted
at_start = called importer fresh

-- When both have been parsed.
abbrev parsed : StageState Item
parsed = record {
  channel = [];
  spawned = [];
  in_hand = none;
  handed = [];
  running = [];
  parsed = bytes "b" ∷ bytes "a" ∷ [];
  waiting = 0;
  errs = bytes "bad" ∷ [];
  submitted = imported ∷ importer ∷ [];
  begun = imported ∷ importer ∷ [];
}

to_parsed : Reach items 1 parsed
unfolding submit has_text
to_parsed =
    let at_nest =
      later
        (later (later at_start (receive importer [] refl refl refl))
          (hand importer refl (omega arith)))
        (start importer [] refl (omega arith)) in
    let nested = later at_nest (nest [] [] importer imported [] refl) in
    let importer_done = later nested (finish [] [] importer refl) in
    let at_imported =
      later
        (later (later importer_done (receive imported [] refl refl refl))
          (hand imported refl (omega arith)))
        (start imported [] refl (omega arith)) in
    later at_imported (finish [] [] imported refl)

quiet-IsComplete_example : IsComplete items 1 parsed
quiet-IsComplete_example = quiet-IsComplete items 1 parsed to_parsed refl

not_stuck_example : (t : StageState Item) × Step items 1 submitted t
not_stuck_example =
    not_stuck items 1 submitted (omega arith) at_start (unfold submit in omega arith)
