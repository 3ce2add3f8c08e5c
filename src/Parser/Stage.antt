-- ===== src/Parser/Stage.antt =====
-- pkg/parser/parsing_stage.go: the queue of a stage, its dispatcher and its workers, as steps that
-- interleave in any order. One step is one channel operation, with what its goroutine does under no
-- other goroutine's eyes before the next one.
pub mod Invariant
pub mod Moves
pub mod Returns
pub mod Complete
use askl_golang_indexer.Prelude.{
  ℕ, suc, ◌+◌, ◌-◌, ◌<◌, ◌≡◌, Bool, true, false, ltb, Option, none, some, List, [], ◌∷◌, ◌++◌,
  if◌then◌else◌, Text, length,
}
use askl_golang_indexer.Index.Directories.{has_text}

-- The interface `Parsable`, as an item determines it: the identifier of `GetId`, the items that its
-- `Parse` submits in turn, and the error that `Parse` returns.
pub record Parsable (Item : Type 0) : Type 0 where
  pub id_of : Item → Option Text
  pub submits : Item → List Item
  pub failure : Item → Option Text

-- The capacity of `s.channel`.
abbrev pub channel_capacity : ℕ
channel_capacity = 1000

-- A stage. `spawned` are the goroutines that wait to send, `in_hand` is the item with which the
-- loop waits for room in `workerCh`, `handed` is `workerCh`, and `running` are the busy workers with
-- what each has yet to submit. `submitted` and `begun` record, for the proofs, which items were
-- passed to `Parse` and which of them the loop let through.
pub record StageState (Item : Type 0) : Type 0 where
  pub channel : List Item
  pub spawned : List Item
  pub in_hand : Option Item
  pub handed : List Item
  pub running : List (Item × List Item)
  pub parsed : List Text
  pub waiting : ℕ
  pub errs : List Text
  pub submitted : List Item
  pub begun : List Item

-- `NewParsingStage`
abbrev pub new_stage : {Item : Type 0} → StageState Item
new_stage = record {
  channel = [];
  spawned = [];
  in_hand = none;
  handed = [];
  running = [];
  parsed = [];
  waiting = 0;
  errs = [];
  submitted = [];
  begun = [];
}

module _ {Item : Type 0} where
  -- `ParsingStage.Parse`: `wg.Add(1)`, then the channel or, where it is full, a goroutine.
  unfoldable pub submit : Item → StageState Item → StageState Item
  submit item s =
      let t = record s { waiting = suc s.waiting; submitted = item ∷ s.submitted } in
      if ltb (length s.channel) channel_capacity
      then record t { channel = s.channel ++ item ∷ [] }
      else record t { spawned = item ∷ s.spawned }

-- `if id, ok := item.GetId(); ok { if s.parsedPackaged[id] …`
abbrev pub id_known : Option Text → List Text → Bool
id_known none parsed = false
id_known (some id) parsed = has_text id parsed

abbrev pub note_id : Option Text → List Text → List Text
note_id none parsed = parsed
note_id (some id) parsed = id ∷ parsed

abbrev pub note_error : Option Text → List Text → List Text
note_error none errs = errs
note_error (some e) errs = errs ++ e ∷ []

module _ {Item : Type 0} (p : Parsable Item) (workers : ℕ) where
  pub data Step (s : StageState Item) : StageState Item → Type 0 where
    -- a goroutine that waited sends its item
    send :
        (pre post : List Item) (item : Item)
        → s.spawned ≡ pre ++ item ∷ post
        → length s.channel < channel_capacity
        → Step s (record s { channel = s.channel ++ item ∷ []; spawned = pre ++ post })
    -- the loop receives an item whose identifier it has seen: `wg.Done()`
    skip :
        (item : Item) (rest : List Item)
        → s.in_hand ≡ none
        → s.channel ≡ item ∷ rest
        → id_known (p.id_of item) s.parsed ≡ true
        → Step s (record s { channel = rest; waiting = s.waiting - 1 })
    -- the loop receives any other item
    receive :
        (item : Item) (rest : List Item)
        → s.in_hand ≡ none
        → s.channel ≡ item ∷ rest
        → id_known (p.id_of item) s.parsed ≡ false
        → Step s (record s {
          channel = rest;
          in_hand = some item;
          parsed = note_id (p.id_of item) s.parsed;
          begun = item ∷ s.begun;
        })
    -- `workerCh <- item`
    hand :
        (item : Item)
        → s.in_hand ≡ some item
        → length s.handed < workers
        → Step s (record s { in_hand = none; handed = s.handed ++ item ∷ [] })
    -- an idle worker receives an item
    start :
        (item : Item) (rest : List Item)
        → s.handed ≡ item ∷ rest
        → length s.running < workers
        → Step s (record s { handed = rest; running = (item, p.submits item) ∷ s.running })
    -- a busy worker submits the next item
    nest :
        (pre post : List (Item × List Item)) (item child : Item) (children : List Item)
        → s.running ≡ pre ++ (item, child ∷ children) ∷ post
        → Step s (submit child (record s { running = pre ++ (item, children) ∷ post }))
    -- `item.Parse(s)` returns: its error is kept, and `wg.Done()`
    finish :
        (pre post : List (Item × List Item)) (item : Item)
        → s.running ≡ pre ++ (item, []) ∷ post
        → Step s (record s {
          running = pre ++ post;
          errs = note_error (p.failure item) s.errs;
          waiting = s.waiting - 1;
        })

  -- What the stage may come to, from its start, while others submit.
  pub data Reach : StageState Item → Type 0 where
    fresh : Reach new_stage
    called : {s : StageState Item} (item : Item) → Reach s → Reach (submit item s)
    later : {s t : StageState Item} → Reach s → Step s t → Reach t

-- `Wait` returns when the group's counter is 0: no error, or the errors joined. They are cleared.
abbrev pub IsQuiet : {Item : Type 0} → StageState Item → Type 0
IsQuiet s = s.waiting ≡ 0

abbrev pub wait_with :
    {Item : Type 0} → List Text → StageState Item → Option (List Text) × StageState Item
wait_with [] s = (none, s)
wait_with (e ∷ errs) s = (some (e ∷ errs), record s { errs = [] })

abbrev pub wait : {Item : Type 0} → StageState Item → Option (List Text) × StageState Item
wait s = wait_with s.errs s
