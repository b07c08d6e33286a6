-- ===== src/Lib.antt =====
-- BATHOS for mcuio: a small operating system kernel for microcontrollers, and on top of it the
-- mcuio protocol, by which a host reads and writes the registers of the device's functions.
--
-- The parts and how they meet. Buffers come from a buddy allocator over a bitmap. Interrupts and
-- drivers trigger events, which wait in a circular buffer until the main loop has their handlers
-- run; handlers may trigger further events. A driver pushes the characters it receives into the
-- circular buffer of a device, from which the pipe on top of it is read. The mcuio task is a
-- handler that reads a pipe, puts the bytes together to packets, looks up the range of registers
-- that a packet names, has the range's operation run and writes the reply to another pipe. Such
-- operations are those of the gpio function, over the pins of the board, and of the i2c function,
-- which drives a bus by its two lines. Periodic tasks run as handlers of the events of a system
-- timer, and schedule themselves again. A pipe can also hand over buffers by a queue that its
-- server and its client share; lininoio speaks its protocol over these queues. The drivers of the
-- one-wire bus find its devices, select one and read temperatures and memories.
--
-- Which file models what:
--   Prelude     names, tests, lists, integers and masks that the other files share
--   Errno       error codes (include/bathos/errno.h)
--   Bitops      set_bit, clear_bit, test_bit (include/bathos/bitops.h), ffs (include/bathos/ffs.h);
--               a word is the list of its 32 bits, lowest first
--   Circ        CIRC_CNT and its kin (include/bathos/circ_buf.h) on 32-bit ints; Counts has them in
--               plain arithmetic, Window what a circular buffer holds
--   Text        lib/string.c, lib/ctype.c and lib/stdlib.c on lists of bytes; Memory is on them. The
--               int32_t of atol wraps
--   Statemachine  lib/statemachine.c: init_statemachine and feed_statemachine, with reads outside of
--               the tables as no result; Run follows a machine over the events it is fed
--   Allocator   lib/allocator.c, include/bathos/allocator.h and the tables that
--               scripts/allocator_aux_gen.c prints; a pointer is its offset from `mem`. Tables and
--               Sizes are facts on the tables, Search on __find_free_buf, Cover counts how often a
--               unit of 8 bytes is free, Shape is on buddies and parents, Coalesce, Split, Acquire
--               and Release on the operations, Client and Ledger on a client that allocates
--               and frees
--   Event       lib/event.c: trigger_event, __handle_event, handle_regular_events, events_init; a
--               handler is a tree of the calls of trigger_event it makes. Queue is the dispatcher of
--               a list, Ring and Dispatch compare the code with it, Interrupt is the part for
--               interrupt events
--   Dev         drivers/dev.c: _bathos_pipe_push_chars, bathos_dev_push_chars, bathos_dev_open,
--               bathos_dev_read, bathos_dev_write, bathos_dev_close, bathos_dev_ioctl. Buffer, Push
--               and Read are on the receive buffer as a queue of characters
--   Pipe        lib/pipe.c: pipe_open, pipe_close, pipe_read, pipe_write, pipe_ioctl, do_free_pipe;
--               Life follows a pipe from its opening to its end, Notify has the events of a device
--               for its pipes and the client side of their queues of buffers
--   Mcuio       the packet (include/tasks/mcuio.h) in Packet, the ranges and __exec_request in
--               Range, the task (mcuio/task-mcuio.c) in Task, its default range
--               operations in Registers, the message of an interrupt
--               (mcuio/mcuio_irq_controller_msg.c) in Irq; Codec, Lookup, Replies, Stale, Total and
--               Assembly are on them
--   Bqueue      lib/buffer_queue.c, lib/buffer_queue_server.c and include/bathos/buffer.h: the
--               descriptors of buffers, the free and the busy list, both sides' operations, and the
--               queues of a server with the moves to them (drivers/unix-eth.c). Lists is on these
--               four lists, Life on the way of a buffer through them
--   Lininoio    lininoio/core.c over Bqueue: the periods of its task, its handlers and the handing
--               of packets to channels. Leak and Never are on the association
--   I2c         mcuio/mcuio_bitbang_i2c_func.c: the state and the transitions of a transaction here,
--               the lines in Wire, the registers in Registers and the buffers in Buffers; Loop
--               and Transfer follow a write from its start to its end
--   Gpio        mcuio/mcuio_gpio_func.c and include/bathos/gpio.h: Pins are the data, set and clear
--               registers, Modes the modes and the masks of events
--   Timer       sys_timer.c and periodic_scheduler.c: the list of ticks and the periodic tasks.
--               Order is on the list, Fire on the handler of the hardware timer
--   W1          drivers/w1.c and include/bathos/w1.h: the search of the bus. Bus has the operations
--               of a bus and of drivers/w1-gpio.c's pin; Trie, Order, Visits and Scan are on the
--               search, Select is the selection of a device, Temp is drivers/w1-temp.c, Eeprom
--               and its child are drivers/w1-eeprom.c, Gpio the bus on a pin
--
-- Bounds and fuel. The allocator has the default configuration: 8 orders, 1024 bytes, 32 bits to an
-- unsigned long; its loops over orders recurse on the number of orders left. The indices of
-- circular buffers are below a size that is a power of two of at most 2^30, so that the macros'
-- ints do not overflow. The loop of handle_interrupt_events over a word has fuel 33: a word has 32
-- bits, and every turn clears one, as no interrupt arrives meanwhile. The loops of the gpio data
-- registers over the words of a packet have fuel: two turns end an access that is not filled, if its
-- width is not 0. The loop of an i2c transaction needs one turn for each byte and a few for the rest;
-- the waits for a slave that holds the clock, and the handing of packets to channels, have fuel too,
-- since the code itself bounds the first only by a count and the second by the buffer. The loop over
-- pages of an EEPROM has the length of the data as fuel, as every page takes a byte at least. All
-- other loops are structural recursions over the data they run through.
--
-- What is not modelled: the hardware drivers and the architectures, whose operations are parameters
-- here; debug prints; interrupts that arrive inside a function, which the code keeps out where it
-- changes the ring of events; the copies from program memory on Harvard machines;
-- drivers/lininoio-dev.c; the contents of lininoio's packets, whose layout is in
-- a header outside the repository; the level events and the event status of the gpio function, which
-- read through a NULL pointer; the table of ranges of the i2c function; the other mcuio functions
-- (pwm, adc, shield); the shell and the main loop.
pub mod Prelude
pub mod Errno
pub mod Bitops
pub mod Circ
pub mod Text
pub mod Statemachine
pub mod Allocator
pub mod Event
pub mod Dev
pub mod Pipe
pub mod Mcuio
pub mod W1
pub mod I2c
pub mod Gpio
pub mod Bqueue
pub mod Lininoio
pub mod Timer
