-- ===== src/Lib.antt =====
-- auxtools and debug_server: a library that lets native code run inside BYOND, and a debugger for DM
-- code that is built on it.
--
-- The program has two crates. auxtools (auxtools/src) finds BYOND's functions by scanning the loaded
-- module for byte signatures, keeps a table of BYOND's procs, gives access to values, replaces the
-- bytecode of procs, and reads the stacks of running and sleeping procs. debug_server
-- (debug_server/src) writes breakpoints into bytecode, receives an instruction hook for each
-- instruction that BYOND executes, and talks to a debug client: requests come in over a channel, are
-- handled while BYOND waits or between two instructions, and responses go out over a socket.
--
-- Which file models which part:
--   Base        lists, maps and tests that all parts use
--   Value       auxtools/src/value.rs, list.rs, raw_types/values.rs: tags, equality, truth; Value/Turf
--               has the turfs by number and by position
--   Procs       auxtools/src/proc.rs: populate_procs, get_proc_override, override_id, strip_path
--   Debug       auxtools/src/debug.rs: StackFrame::from_context and CallStacks
--   Bytecode    auxtools/src/bytecode_manager.rs: set_bytecode and shutdown
--   Sigscan     auxtools/src/sigscan/linux.rs and windows.rs: Scanner::for_module and Scanner::find
--   Dmasm       the part of the dmasm crate's interface that debug_server reads
--   Hooking     debug_server/src/instruction_hooking.rs: hook_instruction, unhook_instruction and the
--               parts of handle_instruction that lift a breakpoint and put it back
--   Server      debug_server/src/server.rs and server_types.rs. Messages has the requests and
--               responses, Session the state and the connection, Variables the references that are
--               given out, Stacks the frame numbers, Inspect and Members the display of values,
--               Lines the searches over a disassembly, Breakpoints, Eval and Handle the handlers,
--               and Loop handle_breakpoint, process and process_until_configured. Quiet, Ending,
--               Stopping, Pausing, Frames and Answers hold what is shown of these
--   Stepping    debug_server/src/instruction_hooking.rs: handle_instruction as a whole, with the steps
--               that a client asks for, and handle_runtime; Stepping/Decide has its match.
--               Conditions, Stops, Detached and References hold what is shown of these
--   Listener    debug_server/src/server.rs: ServerThread, which reads requests from the connection
--   MemProfiler debug_server/src/mem_profiler.rs: the hooks of the allocator and the report
--   ProcHooks   auxtools/src/hooks.rs: the table of hooks, call_proc_by_id_hook and the detours
--   Startup     auxtools/src/lib.rs, init.rs and string_intern.rs: auxtools_init and auxtools_shutdown;
--               Startup/Signatures has the byte signatures for Linux and Startup/Scanning the searches
--   Handles     auxtools/src/value.rs, list.rs and value_from.rs: the operations on values and lists
--               over BYOND's functions, with the references that BYOND counts; Handles/Convert has the
--               conversions from and to native data, and Proc::call
--   RawTypes    auxtools/src/raw_types/misc.rs and procs.rs: the entries with the bytecode, locals and
--               parameters of procs in memory, and the accessors of auxtools/src/proc.rs
--   Ffi         auxtools/src/byond_ffi.rs: functions that DM calls with C strings
--   Macros      auxtools-impl/src/lib.rs: from_signature and convert_signature, the attributes init,
--               shutdown and runtime_handler (Macros/Inventory) and hook (Macros/Hook)
--   Envs        debug_server/src/assemble_env.rs and disassemble_env.rs: what dmasm asks of BYOND
--   Loading     auxtools/src/version.rs, debug_server/src/stddef.rs, instruction_hooking.rs and
--               mem_profiler.rs: the symbols and detours at the start; Loading/Guest has ckey_override.rs
--   Attach      debug_server/src/lib.rs: the proc enable_debugging; Server::connect and Server::listen
--   Strings     auxtools/src/string.rs: how a string is shown, with the replacement of what is
--               not UTF-8 (Utf8); Valid and Closing hold what is shown of that
--
-- How the parts interact. Startup fills the registry of Procs, enters hooks by ProcHooks, and starts
-- and ends Bytecode; its searches are those of Sigscan. Stepping runs the server's loops (Server/Loop)
-- and the breakpoints of Hooking on one session. Listener fills the channel that Server/Loop reads.
-- Attach makes the session's server and runs Server/Loop until the client has configured it. Macros
-- makes the signatures that Sigscan searches for and the hooks that ProcHooks enters. RawTypes is
-- the memory behind the table of Bytecode. Envs uses the operations of Handles.
--
-- How code corresponds to definitions. A record stands for each struct, with its fields' names. A
-- handler of the server is a function in the monad M of Server/Session: it takes the session and
-- returns a result with the new session, or panics, which ends the process. Memory is a function
-- from word addresses to words. Hash maps are association lists without repeated keys. Integers are
-- natural numbers, with `% 2 ^ 32` where a u32 can wrap, as it does in a release build.
--
-- What is not in the repository is an argument. BYOND's functions, the dmasm compiler and
-- disassembler and clap's parser are the fields of the record Byond in Server/World; a call of a proc
-- runs DM code, so it may change the session in any way. The channel is the list of the requests
-- that it still delivers, and the connection is the number of messages that it takes before it breaks.
--
-- Fuel. The loop of Scanner::find has `rounds`: one more position than there are, times the length of
-- the signature, and one round more. Each position costs at most one round for each byte of the
-- signature. The loops over the channel take their number of rounds as an argument and return `none`
-- when they run out: more rounds than there are requests in the channel are enough,
-- if evaluated code adds no requests.
--
-- The listener's loop has one round for each message; each takes four bytes at least, so that more
-- rounds than bytes are enough.
--
-- Not modelled: sockets and threads, the code that detours write, the layout of the structures of
-- running procs, the file of the memory profiler, the replacement of what is not UTF-8 outside
-- Strings, the lookup of symbols in BYOND's library, and AssembleEnv::get_type, which runs DM code.
-- The variables of instruction_hooking.rs and the tags of proc instances are kept with BYOND's
-- state (Tracer in Stepping), since evaluated code changes them. The platform is Linux, except in
-- find_windows, windows_area, MemProfiler, setup_hooks and ckey_override_init.
pub mod Base
pub mod Dmasm
pub mod Hooking
pub mod Value
pub mod Server
pub mod Procs
pub mod Sigscan
pub mod Debug
pub mod Bytecode
pub mod ProcHooks
pub mod Startup
pub mod Stepping
pub mod Handles
pub mod Listener
pub mod RawTypes
pub mod Ffi
pub mod Attach
pub mod Envs
pub mod Loading
pub mod Macros
pub mod Strings
pub mod MemProfiler
