-- ===== src/Lib.antt =====
-- A digital television application for a set-top box: it tunes to a frequency, reads the tables of
-- the MPEG-2 transport stream, plays the streams of a channel, and follows a remote controller.
--
-- The parts of the program and the files that model them:
--
--   tables.h, tables_parser.c -- Tables
--     The parsers of the program association table (Tables/Pat), the program map table (Tables/Pmt),
--     the time and date table (Tables/Tdt) and the time offset table (Tables/Tot). A structure is a
--     record with the source's fields; parsePatTable is `parse_pat_table`, and so on. A parser takes a
--     pointer into a buffer and the table that it overwrites, both as options (`none` is NULL), and
--     returns its error code with the table. Steps has the rounds of a loop, Bounds and Ends how the
--     loop ends, Layout the byte layout of the standard, Typed the ranges of the fields, Tests
--     concrete sections. Tables/Zeroed has the tables that memset leaves, Tables/Print the four print
--     functions, whose output is a list of formats with their arguments.
--   stream_controller.h, stream_controller.c -- Stream
--     Stream/State holds the file-scope variables as the record `Controller`, Stream/Platform the calls
--     of the television platform. Volume, Channels, Pids (the choice of streams in startChannel),
--     Sections (sectionReceivedCallback and the wait for it), Start (startChannel, parseTimeTables,
--     changeChannelKey and the round of the task), Deinit, Task (streamControllerInit,
--     tunerStatusCallback and streamControllerTask) and Config (loadInitialInfo, loadConfigFile,
--     removeWhiteSpaces, and the functions of the C library that they use) model the functions of
--     those names. Sections/Steady and Sections/Kept have what sections leave alone, Start/Steady what
--     starting a channel does, Start/Refused what a refused stream does, Task/Streams which streams the
--     start creates, Task/Quiet and Task/Undated what the task does.
--   remote_controller.h, remote_controller.c -- RemoteController
--     The thread that reads the input device, over what happens while it waits: an event, an error, or
--     a call of another thread. The callback works on any type of state.
--   graphics_controller.h, graphics_controller.c -- Graphics
--     What is to be drawn and which timers have been set; Graphics/Timers lets them expire.
--     Graphics/Device has the start and the end of the module, Graphics/Render renderThread: both give
--     the calls of DirectFB in order. The record `Display` says which of them fail.
--   tv_app.c -- App
--     App/Keypad is the entry of a channel number, App/Remote the switch on the remote controller's
--     keys over all of the modules above; App/Remote/Ready presses any keys, App/Remote/Dial dials a
--     channel, App/Remote/Neighbour presses a channel key behind a dialled number, App/Remote/Kept has
--     what no key touches, App/Remote/Input is the input thread with the application's callback.
--     App/Screen relates keys and frames. App/Television is an abstract television, without the
--     modules: what each key means on it, and when the application is in its state. App/Main is main,
--     up to its wait for the EXIT key and behind it, App/Main/Whole the start of the whole program and
--     what follows it on the remote controller.
--     App/Steps is the step relation: keys, timers, rounds of the task and sections in any order.
--   vezba_5.c -- App/Older
--     The program before tv_app.c, without the volume and the date: its keys, its main, and how it
--     compares with tv_app.c.
--
-- The parts meet in App/Remote: a key calls the stream controller or the graphics controller, whose
-- records the record `System` holds. The stream controller calls the parsers from the callback of the
-- demultiplexer, and calls the application back with the volume and the date.
--
-- How C is modelled (Common): numbers are natural numbers, cut to their width where the source does,
-- or integers where the source has negative values. A run is an `Outcome`: it is done, it faults (an
-- access outside an object, through NULL, or of an uninitialised variable), or it is out of fuel,
-- which also stands for a thread that waits for ever; Common/Always is for what holds of a run if it
-- returns. An array is a list whose bounds are checked. A table is `none` when its pointer is NULL and
-- when it has been freed; sectionReceivedCallback tells the two apart by threadExit (`given`).
--
-- Bounds and fuel: the loops of the three table parsers get 21 rounds, one more than a table has
-- slots. That is enough: each round fills a slot, and a full table ends the loop, in an error or, in
-- parseTotTable, in an access behind the last slot. The wait for a section handles the sections that
-- come in, in order; without one that parses it is out of fuel, as pthread_cond_wait has no timeout.
-- The loops over the characters of the configuration file recurse on the text or on the length of the
-- line, and a number is printed with five digits, as many as 16 bits need.
--
-- The platform (tdp_api.h) is a parameter: the record `Platform` says which calls fail and what
-- handles are given out, depending on the calls made before. Its calls are logged in `trace`, the
-- latest first. The callbacks that run on other threads (sections, timers) are taken at the points
-- where the program waits for them or between two keys: App/Steps takes each of them as one step.
-- Races inside a step have no model.
--
-- Not modelled: what the functions other than the table printers print, the work of DirectFB and of
-- the platform behind their calls, the drawInfoRect() without arguments that vezba_5.c calls, which is
-- a parameter there, and two experiments that the makefile does not build: test.c, the date of one
-- fixed day, and mjd.c, which does not compile.
pub mod Common
pub mod Tables
pub mod Stream
pub mod RemoteController
pub mod Graphics
pub mod App
