-- ===== src/Lib.antt =====
-- The Go indexer of askl: the paths and the git files that it is started with (pkg/indexing), the
-- stages of its parser (pkg/parser), the index that the parser fills (pkg/index), and the numbering
-- that turns every object's symbol instances into a containment tree before the index is written.
--
-- The parts. The package paths are resolved and grouped by module (pkg/indexing/indexing.go); for each
-- module the parser runs its stages, in which workers parse packages and files and submit more of them
-- (pkg/parser/parsing_stage.go). The parser reports symbols and references to a `ProtoIndex`
-- (pkg/index/proto_index.go), which collects them in the messages of proto/index.proto. `Marshal`
-- and `Upload` complete the index and call `numberObjectTrees` (pkg/index/numbering.go) last: one
-- object at a time, it derives a parent for each instance from the source ranges, lets stated parents
-- win, walks the tree once to give each instance an interval [dfs_enter, dfs_exit), and places each
-- reference as a point inside the instance that owns it.
--
--   Prelude      Boolean tests, lists, maps as association lists, signed integers, int32 conversion.
--   Proto        the messages (pkg/indexpb/index.pb.go) that the index builds.
--   Parentage    pkg/index/numbering.go: kindRank, contains, the sort order and the parentage sweep
--                of numberObjectTree, childLists.
--   Forest       pkg/index/numbering.go: numberForest, the loops with their frames.
--   RefPoints    pkg/index/numbering.go: numberRefs with placeBefore.
--   ObjectTree   pkg/index/numbering.go: numberObjectTree with its fallback, numberObjectTrees.
--   Index        pkg/index/index.go, filetype.go, symbols.go and proto_index.go: the kinds (Kinds,
--                Filetype), the state (State), one function for each operation (Files, Symbols,
--                References, Directories, Completion, Queries, Decls), and what the operations keep
--                (Extents, Sound, SoundFiles, Recorded, Writes, Again, Ancestors).
--   Indexing     pkg/indexing/indexing.go: package paths, go.mod files and the common ancestor (Paths);
--                pkg/indexing/git_files.go: the files of a commit and their way into the index (Git).
--   Parser       pkg/parser/parsing_stage.go: the stages as steps of their goroutines (Stage);
--                pkg/parser/type_walker.go: the named types of type expressions (Types);
--                pkg/parser/parser.go: the packages and the references that wait (Packages);
--                pkg/parser/package_parser.go and assignment_stage.go: what a package submits (Items);
--                pkg/parser/file_parser.go: how a file's parser is made (as in assignment_parser.go), its
--                imports and its references to types and values (Files).
--   Logging      pkg/logging/logging.go: ParseLevel.
--   Examples     runs on concrete data.
--
-- Choices. A slice of indices is a list and an array indexed by instance a function; -1 in a parent
-- array is `none`. Go's maps are association lists; where the code ranges over a map, the model takes
-- the order of the list. dfs_enter, dfs_exit, nesting_level and fold_depth are bit patterns with the
-- wrap-around of int64 and int32 written out; an object with fewer than 2 ^ 31 instances never reaches
-- it. Identifiers are unbounded numbers. The loop of numberForest runs on fuel, two steps for each
-- instance, which is enough for every parent array, circular ones included.
--
-- The objects of an index are a list, and a pointer to one is its position there, which never changes.
-- An operation takes the index and returns the index, with its result or its error; each one holds the
-- mutex from start to end, so the mutex is left out. filepath.Clean, filepath.Ext with strings.ToLower,
-- strings.TrimSpace, http.DetectContentType and sha256.Sum256 are parameters. The loop over the
-- ancestors of a path runs on three more steps than the path is long, which is enough.
--
-- A stage is a step relation: one step is one channel operation of the dispatcher, of a worker or of a
-- goroutine that waits to send, with what it does before the next, so every interleaving is a sequence
-- of steps. An item of a stage is what it submits when it is parsed and the error it returns. A package
-- is known by its pointer, a number, and a table of packages stands for what packages.Load returns.
-- Whether the parser of a file can be made is a function of the package and the file: a stage parses no
-- package twice, so every run has such a function. The file system, path/filepath and go-git are
-- parameters, and so is what go/types knows of an identifier; none is a panic where a type has no
-- package. The operations on a file's references (addTypeRefs, addBuiltinTypeRefs, resolveDeferredRefs,
-- parseImports) and the making of its parser are taken by themselves, on one index: between their calls
-- of the index other workers may call it too, which the model of these functions leaves out. The loops
-- that climb to parent directories run on fuel; fuel above the depth of the path is
-- enough, for any measure of depth that filepath.Dir lowers.
--
-- Not modelled: the protobuf encoding, which `Marshal` adds to what `Upload` does, the log messages,
-- the failure messages of the matchers, `ParsingStage.Close`, and the text of errors. The traversals of
-- pkg/parser (declarations and function bodies in file_parser.go, and assignment_parser.go),
-- `AddPackages`, `ParseModules`, the output functions of pkg/logging, and cmd are outside this
-- development.
pub mod Prelude
pub mod Proto
pub mod Parentage
pub mod Forest
pub mod RefPoints
pub mod ObjectTree
pub mod Index
pub mod Indexing
pub mod Parser
pub mod Examples
pub mod Logging
