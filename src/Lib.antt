-- ===== src/Lib.antt =====
-- LEOS SDK: a model of the SDK's drivers, and theorems about them.
--
-- The SDK drives a LoRa radio (src/leos_sx126x), a CAN controller (src/leos_mcp251xfd) with a
-- Cyphal node on top (src/leos_cyphal), an ADC (src/leos_mcp342x) and a sensor board
-- (src/leos_purpleboard), on a Raspberry Pi Pico or on Linux, and logs to the console
-- (src/leos_log).
--
-- Sx126x models src/leos_sx126x/sx126x.c, sx126x_priv.h and include/leos/sx126x.h.
--   Types, Vendor, Convert, Context, Receive, Setup, Transmit, Globals and Api hold the
--   definitions: each function keeps the source's name without the prefix `leos_sx126x_`; the
--   part of it that works on the context it has looked up ends in `_ctx`.
--   The vendor library driver_sx1262 and the platform are the parameter `Driver`: what a call
--   answers and does to the world is arbitrary, and during any call DIO1 may interrupt, upon
--   which the application's handler calls leos_sx126x_handle_dio1_irq for that radio. A run of
--   sx1262_irq_handler is a finite tree of calls of the receive callback.
--   A call that fails returns early, which is the monad of Context; Frame says what calls of the
--   vendor library leave alone.
--   Invariant, System, Reception, Transmission, Polling, Interrupts, Configuration and Abandoned
--   prove; Examples runs the theorems on a simulated vendor library.
--   A buffer that a pointer leads to is read as a function from offsets to bytes: that it is as
--   long as the caller says is taken for granted. Logging is left out.
--
-- Mcp342x models src/leos_mcp342x/src/mcp342x.c and include/leos/mcp342x.h.
--   Device (the record and its setters) and Read (samples, the conversion loop, voltages) hold
--   the definitions, with the source's names less the prefix `mcp342x_`. The I2C calls of the
--   Pico SDK are the parameter `I2c` and the float operations the parameter `Floats`. The loop
--   of mcp342x_read_blocking, which has no bound, runs on fuel: Conversion shows what fuel is
--   enough. Fields, Samples, Conversion and Voltage prove; Examples runs the theorems on a
--   simulated bus.
--
-- Cyphal models the subscriptions in src/leos_cyphal/node/cyphal.c and the dispatch of a
-- transfer in src/leos_cyphal/transport/transport.c.
--   Table (the loops over the table of subscriptions) and Node (leos_cyphal_subscribe,
--   leos_cyphal_unsubscribe, leos_cyphal_subscription_dispatch) hold the definitions. libcanard
--   and the heap are the parameter `Canard`, and what the code relies on in them is the record
--   `Lawful` of Laws: what canardRxSubscribe and canardRxUnsubscribe do to the registry of kinds
--   and ports, that a new object was not allocated before, and that only an allocated object may
--   be freed. The abstract view is a map from ports to objects, which the table and libcanard's
--   registry both represent where each port is used with one kind (Tracking). Slots, Clearing and
--   Filling are about the table, Subscribing, Unsubscribing and Dispatch prove. Calls is a run of
--   calls with the book of their answers, which System proves the node to serve; Capacity, Places
--   and Serving are its lemmas. Simulation is a libcanard that obeys the laws, at which Examples
--   runs the theorems.
--   Task models the rest of the node over the parameter `Services`: leos_cyphal_init with
--   canard_memory_init, the task, the heartbeat and the push. Its state is apart from that of
--   Node, of which it has the table. Heartbeats proves, from the laws `KeepsTime` of the clock and
--   of what libcanard is given to send.
--
-- Transport models src/leos_cyphal/transport/mcp251xfd/driver.c.
--   Transmit (a frame that is sent), Receive (the loop of canard_mcp_rx_process) and Link (the
--   transport for the node) hold the definitions, over the parameters `Controller` and `Receiver`,
--   which are the controller's library, libcanard and the callbacks. What a variable of type
--   eERRORRESULT holds after a negative number is put there is a parameter too. The loop runs on
--   fuel, one unit for each frame and one more: a frame that comes during the loop counts. Frames
--   and Draining prove, the latter from the laws of Behaviour; Delivery and Reaching put the loop on
--   a node after a run of calls, with the laws `Observes` of what is accepted and called. Examples
--   runs the theorems on a queue of two places and on a controller with frames waiting.
--
-- Mcp251xfd models src/leos_mcp251xfd/mcp251xfd.c, platform.c and
-- include/leos/mcp251xfd/debug.h.
--   Types and State hold the data, Driver and Task the functions, less the prefix
--   `leos_mcp251xfd_`. The controller's library, the Pico SDK, the heap and the receive callback
--   are the parameter `Platform`; an access to a context that is not allocated, and a write outside
--   the table of pins, is a fault. During a call of the library, of the callback or of sleep_ms,
--   pins may fall, upon which the interrupt handler runs. The callback is taken not to call the
--   functions of the driver. The loop of the task runs on fuel; its answer is false when the fuel
--   runs out, and for some answers of the controller no fuel is enough. Ready, Events and Finishing
--   are about answers for which some is, the laws `Clears`. Consistency, Stable,
--   Servicing, Updates, Operations and System prove that nothing faults, Lifecycle and Stuck what
--   their comments say. Crc defines the CRC, Residue proves, by tables over all bytes. Simulation
--   is a controller, at which Examples runs the theorems. Spi models the other functions of
--   platform.c, less the prefix `MCP251XFD_` and the suffix `_Pico`, over the parameter `Board`, and
--   proves from its laws `Obeys`; SpiExamples is a board. Debug is the text that the functions of
--   include/leos/mcp251xfd/debug.h print.
--
-- LinuxPort models src/leos_sx126x/sx126x_port_linux.c.
--   Gpiod holds the interface to libgpiod, spidev and the clock, and the static state; Lines (the
--   requests of GPIO lines), Bus (the transfer, RESET, BUSY and the clock) and Links (what
--   leos_sx126x_link_handle links) the functions, less the prefix `leos_sx126x_`. The sequence that
--   requests one line stands three times in the source and once here. What the code relies on in
--   libgpiod are the records of laws `CountsObjects` of Balance, on what makes and frees an object,
--   known by its type and address, and `DrivesLines` of Select, on the levels of lines. Ownership,
--   Requests, Initialisation, Outcome and Release prove who holds the open requests, Clock is about
--   the radio driver on the port's clock; Simulation is a libgpiod that runs out of memory after a
--   number of objects, at which Examples runs the theorems. Messages to stderr are left out.
--
-- PicoPort models src/leos_sx126x/sx126x_port_pico.c.
--   Sdk holds the interface to the Pico SDK and the static state, Port and Links the functions, less
--   the prefixes `leos_sx126x_` and `platform_`. What the code relies on in the SDK are the records
--   of laws `DrivesPins` of Select, on the levels of pins, and `KeepsBlocks` of Sharing, on which
--   SPI blocks are initialised. Select and Sharing prove; Examples runs the theorems on a board.
--
-- Purpleboard models src/leos_purpleboard/purpleboard.cpp and include/leos/purpleboard.h.
--   Types holds the readings, the board's structure and the interface `Library` to the libraries of
--   the four sensors and of the bus, to new and delete and to the float operations; Board the start
--   and the end, Read the reading, less the prefix `leos_purpleboard_`. An object is an address.
--   Validity, Fresh and Objects prove, the last from the laws `CountsObjects` on which calls make
--   and delete an object; Examples runs the theorems at sensors of which some do not answer.
--
-- Log models src/leos_log/log.c.
--   Text is what printf writes for the three formats used, Console the logger and its start, over
--   ulog, the clocks and the standard output as the parameter `Platform`. A text is a list of
--   character codes. Reader is a reader of the lines, written for the theorem, Digits and Lines
--   prove; Examples runs the theorem at a clock.
--
-- Not modelled: the macros that choose a platform and the macros of log.h, which only name those
-- of ulog; the allocation functions of src/leos_cyphal/node/memory.c, which only call o1heap; and
-- debug_print of the two ports, which only prints.
--
-- Prelude holds the names that the modules share.
pub mod Prelude
pub mod Cyphal
pub mod LinuxPort
pub mod Log
pub mod Mcp251xfd
pub mod Mcp342x
pub mod PicoPort
pub mod Purpleboard
pub mod Sx126x
pub mod Transport
