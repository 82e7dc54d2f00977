-- ===== src/Lib.antt =====
-- Verification of the firmware of the radar video processor (Zynq, lwIP, FreeRTOS).
--
-- The program. ASTERIX CAT240 video arrives over UDP. `udp_parse_task` merges ten packets into one,
-- hands the result to the automatic gain control over a queue, and sends it on. The gain control
-- keeps a gain for each of the 1200 directions of the antenna and sends a changed gain to the
-- programmable logic. Commands arrive over TCP; one of them switches the gain control on and off.
-- The UDP sender emits numbered packets.
--
-- The parts and where they are modelled:
--   Base     shared names, Boolean tests, lists with indices, words that wrap round, and code that
--            may leave the defined behaviour of C (`none` of Option).
--   Asterix  src/asterix_parse.c and src/asterix.h. `Words` has the byte orders, `Reader` a parser
--            with the cursor, the bytes that remain (a uint32_t that wraps round) and the message;
--            `Fields` has one function for each FRN, `Parse` is `parse_cat240`. `Encode` is the
--            wire format, written without regard to the parser. The other children are proofs.
--   Pl       src/pl_interface.c, `send_to_PL`.
--   Gain     src/auto_gain_control.c and src/auto_gain_control.h. `State` has the records and the
--            static variables, `Zone`, `Samples`, `Revolution` and `Control` the handler from the
--            inside out, `Task` the task of src/main.c that runs it over its packets. Its output
--            goes through `Pl.send_to_pl`. `Lines`, `Handles` and `Turning` say what one packet does
--            to one direction, `Sweep` and `Antenna` what a turning antenna does to it.
--   Udp      src/main.c, `udp_parse_task`. `Merge` has the loops over the two chains, `Task` the
--            task with the packet it keeps, its counter and the calls it makes.
--   Pipeline src/main.c, the tasks of Udp and Gain with the queue between them. Its root runs them a
--            packet at a time; `Schedule` has the callback of src/iwip.c, both queues, and every call
--            of the tenth packet as a step of its own, between which commands come; the priorities of
--            src/main.h decide which task runs. `Reached` has the states that any order of steps
--            reaches, and `Format` has the packets that both tasks can handle, on which `Defined`
--            runs the steps, and `Drained` until both tasks wait.
--   Command  src/iwip.c, `get_tetrada` and `parse_msg`, and src/cmd.h. It shares the states of a
--            task with Udp and the console with Pl.
--   Sender   src/udp_stack.c and src/udp_stack.h.
--   Monitor  src/tcp_stack.c and src/tcp_stack.h, the monitor of the TCP connection; `Status` has
--            what it shows.
--   Connection  src/iwip.c, `tcp_connection_cl`, `need_reconnect`, `reconnection_tcp`,
--            `tcp_client_close` and the callbacks for errors and for a new connection. Control blocks
--            and monitors lie in stores, and pointers are indices. It makes its monitors with Monitor.
--   Handoff  src/iwip.c, `udp_receive_callback`, `recv_callback` and `udp_package_send`, and
--            src/main.c, `tcp_parse_task`, which handles a buffer with `parse_msg` of Command. `Queue`
--            is what is relied on of a queue of FreeRTOS.
--   Compose  src/iwip.c, `compose`, `refactor` and `refactor_more`, and `cat240_storage_t` of
--            src/asterix.h.
--   Timer    src/ttc_timer.c, the interrupt handler, and src/main.c, `x1emacif_input_thread`. `Setup`
--            has the start of the timers, `Interrupt` the handler with its calls.
--   Network  src/iwip.c, `lwip_network_setup` and `udp_connection`, which makes the Sender.
--   Platform src/platform.c and src/platform.h.
--   SysCalls src/sys_calls.c and src/newlib_compat.c.
--   Startup  src/main.c, `main` and `network_init_task`, src/cpu1_init.c and src/diag.c. It runs
--            Platform, Network and the set-up of Timer.
--
-- Conventions. A buffer is the list of the bytes of its memory from the payload on, and a chain of
-- buffers the list of them; a buffer that lwIP received lies in an entry of its pool, which is larger
-- than the part of the packet in it, and `Udp/Pool` says by how much.
-- Reading or writing outside a buffer, a division by zero and a NULL pointer that the code uses are
-- `none` (in the parser: `out_of_bounds`). Integers are natural numbers; a uint8_t, uint16_t or uint32_t that may wrap round
-- is cut with `wrap8`, `wrap16` or `wrap32`. Calls of lwIP and FreeRTOS are recorded in their order,
-- and what they answer is an argument. No function runs on fuel: the loops of the program run over a
-- number of rounds or a chain that is known when they start, and are structural recursion on it; the
-- endless loop of a task is modelled as a sequence of rounds.
--
-- Code that only calls libraries is the list of its calls, and how it ends: it returns, stops for good
-- (a failed configASSERT, a deleted task, an endless loop) or leaves the behaviour of C (`Base.Calls`).
--
-- Not modelled: the texts of the debug prints; the scheduler and the memory of FreeRTOS;
-- `xemacif_input`; `set_mode` of src/iwip.c, which is empty; the declarations of src/main.h that
-- nothing defines or uses; and the libraries under external/, which are not this program's code.
pub mod Base
pub mod Asterix
pub mod Pl
pub mod Gain
pub mod Udp
pub mod Command
pub mod Sender
pub mod Monitor
pub mod Timer
pub mod Platform
pub mod SysCalls
pub mod Network
pub mod Startup
pub mod Compose
pub mod Handoff
pub mod Pipeline
pub mod Connection
