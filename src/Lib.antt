-- ===== src/Lib.antt =====
-- specops, a DSL for raw EVM bytecode: a model of its compiler, and what it promises.
--
-- A program is a `Code`, a list of Bytecoders (specops.go, types/types.go). `Code.Compile`
-- (compile.go) flattens it, reads it into splices while it tracks the depth of the stack, locates
-- the tags of its JUMPDESTs and Labels, and writes the bytes. A Bytecoder may be a transformation of
-- the stack, whose opcodes a breadth-first search finds (stack/transform.go).
--
-- Files, and the code that they model:
--   Base        the names that all modules share; `Outcome`, what a Go function that returns
--               (T, error) can do: return, return an error, or panic
--   Opcode      the opcodes that the compiler names; Opcode/Table and Opcode/Aliases: `stackDeltas` and
--               the constants (opcodes.gen.go); Opcode/Generator: what prints them (internal/opcopy)
--   Types       `pusher.Bytecode` (types/types.go); Types/Push: what the bytes do when executed
--   Splice      `splice` with setTags, bytesPerTag, bytesForSize, extraBytesNeeded and leadingZeroes
--               (compile.go), and the lazily located ops of tags.go. A pointer to a splice is an index
--   Concat      `spliceConcat`: newSpliceBuffer, reserve, expand and bytes (compile.go); its children
--               prove what each pass keeps, and Concat/Linked describes linked code without splices
--   Transform   `Transformation.Bytecode` and its checks; Transform/Node: orders of values and what
--               an opcode does to them; Transform/Bfs: the search; Transform/Stack: the EVM's opcodes;
--               Transform/Levels: the lengths of the paths that the search knows
--   Code        the Bytecoders, one constructor for each type that implements the interface, with
--               `Fn` and `Code.flatten`
--   Compile     the loop of `Code.Compile` and the whole of it; Compile/Reading says what items a
--               program gives, Compile/Linking what it means that bytes are the items, linked
--   Push        `PUSH` for each type of its argument, with the StackPushers (specops.go)
--   Toggle      `Toggle` (internal/sync/toggle.go), as a relation between the states that the steps of
--               any goroutines lead through
--   Run         `Run`, `newRunConfig` (run.go), the options (runopts) and `ErrFrom` (revert), on a
--               database of go-ethereum that is a parameter, with what the code relies on (Run/Deployed);
--               Run/Start: `StartDebugging`, with the calls that the EVM makes of its tracer a parameter;
--               Run/Reverted: `Data` (revert); Run/Captured: the captures (runopts/capture.go);
--               Run/Terminal: `RunTerminalDebugger`
--   Debugger    `Debugger` (evmdebug/evmdebug.go) as the steps of two goroutines, one that runs the EVM
--               and calls the hooks, and one that calls the methods; Debugger/Phases says which of
--               their places go together, and the other children what follows
--   Ui          what the terminal interface (evmdebug/ui.go) lists of the code, stack and memory;
--               Ui/Input: its key handler, which calls the Debugger, one step between two calls
--
-- Numbers: bytes and depths keep their wrap-around (% 256, % 2 ^ 64); the offsets and counts of
-- compile.go are Go ints that never leave the range of the code's length, and are plain numbers.
--
-- Fuel: `expand` loops until a pass changes nothing. A pass that does not end it reserves a byte more,
-- and no op reserves more than a byte and two for each tag, so the sum of those bounds is enough
-- (Concat/Expand). A round of the search takes an order of values from the queue that was never there
-- before; a round that leads on has applied every SWAP, so that its order has at most 17 values, and
-- there are fewer than 257 ^ 18 orders of up to 18 (Transform/Encoding, Transform/Rounds).
--
-- A Debugger follows the execution of one frame: the calls of the hooks are a list that is given at the
-- start, since the Debugger changes nothing in the EVM. Its channels `step` and `stepped` have no
-- buffer, so that a send and its receive are one step of both goroutines; what a goroutine does between
-- two points at which it can block is one step. The client of a `ClientStep` calls Wait and Step only
-- while Done is false, as the comment of Step asks; that of a `FreeStep` (Debugger/Late) at any time.
--
-- Not modelled: the layout of the terminal interface and the text of the result, the
-- command line, and what go-ethereum does. The texts of errors are left out. A Bytecoder of another module is what its `Bytecode` returns, and the
-- bytes of a uint256.Int and Keccak-256 are parameters of Push. That the slice which `Fn` is given is
-- itself reversed, and that `Permute` sets the depth of the Transformation, is passed on as a value.
pub mod Base
pub mod Opcode
pub mod Types
pub mod Splice
pub mod Concat
pub mod Transform
pub mod Code
pub mod Compile
pub mod Push
pub mod Toggle
pub mod Run
pub mod Debugger
pub mod Ui
