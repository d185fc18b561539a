-- ===== src/Lib.antt =====
-- StrideJIT: the JIT compiler and code generator of the Stride language.
--
-- The development models the parts of the repository that are its own logic, and leaves LLVM and
-- the parser library aside. Paths are from the repository's root.
--
-- Runtime: the string runtime that generated code calls, src/strideruntime_string.cpp and
-- include/stride/stridejit/strideruntime_string.h.
--   Runtime/View.antt       StrideStringView: a pointer is the bytes that it reaches, a length
--                           is an integer.
--   Runtime/Slice.antt      __stride_string_substring, trim_left, trim_right, trim.
--   Runtime/Search.antt     find, find_last, contains, starts_with, ends_with, equal, compare.
--   Runtime/Token.antt      tokenize, token_at, token_count. Their loops run on fuel: a text of n
--                           bytes is given n + 2 rounds, and each round that goes on moves the
--                           start by a byte or more.
--   Runtime/Arena.antt      __stride_string_repeat and __stride_jit_string_concat_n on an explicit
--                           64 KiB buffer, where a read or write outside an object is no result, and
--                           neither is a sum of lengths that overflows an int32_t.
--   Runtime/Format.antt     __stride_jit_string_format; snprintf of a real is a parameter, and the
--                           loop has as many rounds as the format has bytes.
--   Runtime/Jit.antt        the __stride_jit_string_* wrappers.
-- Sums of 64-bit lengths and 32-bit counts are taken without overflow: their terms are 32-bit
-- values. A view keeps a snapshot of the bytes that it reaches, so a later call that reuses the
-- scratch buffer under an older result is not modelled. parse_int, parse_real, print and println
-- only call the C++ library and are left out.
--
-- StateMachine: src/statemachine.cpp and include/stride/stridejit/statemachine.hpp.
--   StateMachine.antt          Transition, FlattenedState, StateMachine; findState, variable names.
--   StateMachine/Ast.antt      what is read of the parser's tree: properties, declarations by name.
--   StateMachine/Flatten.antt  flattenStateMachine. Its recursion runs on fuel, since nothing in the
--                              code stops a state that is among its own states.
--   StateMachine/Process.antt  resolveLeafInitialState, processStateMachine, collectStateMachines.
--                              Resolving runs on fuel: one round for each state, and two more.
--   StateMachine/Codegen.antt  StateMachineExprAST::codegen: the states that each piece of the
--                              generated code is about. The walk over parents runs on fuel: one round
--                              for each state, and one more.
--   StateMachine/Step.antt     what the generated code does in one evaluation: first entry, switch on
--                              the active state, conditions, exit and entry code, history, latches.
-- The variables of a machine are taken to be allocated, as src/stridegenerator.cpp does it. What the
-- code of an expression does is a parameter, which may read and write every variable. A generator
-- variable is bound to the request's argument in the case of the active state; a binding that is left
-- over from the case of another state, whose value is not available there, is not modelled.
--
-- Mangler: src/namemangler.cpp and include/stride/stridejit/namemangler.hpp.
--   Mangler.antt            lengthPrefixed, overloadKey, typeCode, encode, mangle, lookup, resolve,
--                           overloads, resolveUnique. std::to_string is written out; its rounds are
--                           one more than the number, which has fewer digits than that.
-- A std::map is a list of pairs that is searched from its head; `at` on a missing key, which throws,
-- is no result.
--
-- Buffer: src/bufferspec.cpp and include/stride/stridejit/bufferspec.hpp.
--   Buffer.antt             BufferSpec, storageSize, and the arithmetic of its sizes.
--   Buffer/Read.antt        fromDeclaration, in as many parts as it has early returns; the access to
--                           properties. A division by zero is no result. storageSize wraps
--                           where the doubled capacity is no int.
--   Buffer/Ring.antt        the code that src/binaryexprast.cpp generates for a buffer (BufferPushExprAST,
--                           BufferViewExprAST, BufferFrameCopyExprAST), the end of a tick and the
--                           restart of src/stridegenerator.cpp. i32 arithmetic wraps; an access out
--                           of the storage is no result.
--   Buffer/Emit.antt        what is checked before that code is emitted.
-- A trigger entity is read as a Boolean, and a value is of the element type once it is converted.
--
-- Rate: the multi-rate part of src/binaryexprast.cpp and include/stride/stridejit/numberexprast.hpp.
--   Rate.antt               RateScheduleSpec and its build; what a double does is a parameter.
--   Rate/Tick.antt          a tick of DownsampleExprAST and UpsampleExprAST. The loop of the latter runs
--                           on fuel: with positive steps, one round more than the chain's step.
-- A chain whose state field is missing, which runs once in every tick, is not modelled.
--
-- Invoker: the part of src/strideenvironment.cpp that calls generated functions.
--   Invoker.antt            InvokerParameterList, getFunctionArg, getFunctionArgIndex. The address
--                           of a property value is told by the index of its description.
--   Invoker/Step.antt       stepTick, with the states that it allocates; malloc, the table of
--                           functions and the call itself are parameters.
--
-- TestSpec: src/testing/testspec.cpp and include/stride/testing/testspec.hpp.
--   TestSpec.antt           SignalStreamVector: size, the three overloads of matches, formatValue,
--                           formatCondition. What a double does, and how a stream prints a number,
--                           are parameters.
--
-- StateAccess: the part of src/strideenvironment.cpp that reads and writes a state by name, and
--   StateStructInfo and StateMachineInfo of include/stride/stridejit/stridecompiler.hpp.
--   StateAccess.antt        getStateVar and setStateVar for int32_t, findFieldByFunctionality,
--                           getActiveStateId, getTransitionRequestId, getHistoryStateId,
--                           requestTransition. A state is the list of its bytes, and an access outside
--                           it is no result. The conversions of doubles, the data layout and
--                           std::stoul are parameters.
--   StateAccess/Ids.antt    getStateId, getTransitionId, getTransitionIdForState.
--
-- StateDefaults: the part of src/strideenvironment.cpp that allocates states.
--   StateDefaults.antt      writeConstantToBuffer, snapshotStateDefaults, allocateState, hasState,
--                           getStateSize. The data layout, malloc, and the addresses of interned
--                           strings are parameters; a write outside a buffer is no result.
--
-- StateLookup: the part of src/stridecompiler.cpp that finds the state of a node or a name.
--   StateLookup.antt        the two getStateStructInfo. The map of states is the list of its entries,
--                           in any order.
--
-- Prelude holds what all parts share: Boolean tests, lists measured by native numbers, integers.
--
-- Not modelled: the building of LLVM code from the parser's tree (the rest of src/stridegenerator.cpp,
-- src/functionast.cpp, src/binaryexprast.cpp, src/stridecompiler.cpp), sessions of the JIT and its
-- symbols, debug information, the test runner with its reports and command line, and the loader:
-- they are mostly calls of LLVM, of the parser and of the operating system.
pub mod Prelude
pub mod Runtime
pub mod StateMachine
pub mod Mangler
pub mod Buffer
pub mod Rate
pub mod Invoker
pub mod TestSpec
pub mod StateAccess
pub mod StateDefaults
pub mod StateLookup
