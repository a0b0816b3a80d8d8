-- ===== src/Lib.antt =====
-- OTDB keeps a database of OpenTag filesystems, one for each device, behind a line-oriented command
-- interface, and keeps it in step with the devices through a device manager (devmgr). This library
-- models the C program under main/.
--
-- The parts, and how they meet:
--
-- A command line is read at a prompt (main/dterm.c, with the history of main/cmdhistory.c) or from
-- a socket; the command's arguments are taken by cmd_extract_args (main/cmds.c); the command works
-- on the selected device's filesystem through libotfs, may send a line to the device through
-- dm_xnprintf (main/dm_printf.c) and cmd_devmgr (main/cmd_devmgr.c), and replies in JSON or in
-- plain bytes (main/cmds.c).
--
--   Base      names of the libraries, lists over native numbers, a ring of integers as `ℤ`, byte
--             ranges, splices of lists, both branches of a test.
--   Text      the C library's text functions: isspace, strtoul and strtoull, atoi, snprintf with
--             numbers. They are the language's library, so they have no place in the source.
--   Hex       main/cmds.c: cmd_hexread, cmd_hexnread, cmd_hexwrite, cmd_hexnwrite. hexnread_mem is
--             the decoder with source and destination in one buffer.
--   Output    main/cmds.c: cmd_jsonout_err, cmd_jsonout_fmt, cmd_jsonout_data over the memory from
--             `dst` on.
--   Args      main/cmds.c: cmd_extract_args, in Args/Extract.antt one function for each of its
--             sections in their order, chained by the Outcome that is its goto. arg_parse is behind
--             the record Parsed, bintex_ss is an argument.
--   History   main/cmdhistory.c, the ring of commands as its record Cmdhist, with every operation.
--   DevLink   main/dm_printf.c: dm_xnprintf, as the line it hands on and the memory it leaves, and
--             cmd_minauth_get of main/cmds.c.
--   DevMgr    main/cmd_devmgr.c: sub_devmgr_socket as a machine. An Event is what the socket and
--             the clock give to one round, `step` is the body of the loop, `rounds` the loop.
--   Otfs      the interface of the filesystem library that the commands are given.
--   Files     main/cmd_filecmds.c: Files/Admin.antt has cmd_del, cmd_new, cmd_restore and
--             cmd_writeperms, Files/Write.antt cmd_write and cmd_pub, Files/Read.antt and
--             Files/Read/Commands.antt the four commands that read. Files/Toy.antt is a small
--             filesystem for concrete runs.
--   DevCmds   main/cmd_devcmds.c: cmd_devnew, cmd_devdel, cmd_devset.
--   DevList   main/iterator.c and main/cmd_devls.c.
--   PushPull  push and pull of main/cmd_pushpull.c, over any action on a device; PushPull/Actions.antt
--             has push_action and pull_action.
--   Cjson     the items of the JSON library that the readers are given; Cjson/Toy.antt is a small one.
--   JsonTools main/json_tools.c: the metadata readers, the names of types, and the elements.
--   OpenLoad  main/cmd_open_load.c: in OpenLoad.antt the check of a template and the file table that cmd_open
--             makes of it, in OpenLoad/Contents.antt and OpenLoad/Open.antt the default contents and the
--             end of cmd_open, in OpenLoad/Open/Command.antt cmd_open as a whole, in OpenLoad/DataFile.antt and OpenLoad/DataFile/Merge.antt cmdsub_datafile, in
--             OpenLoad/Devices.antt the device directories of cmd_open, and cmd_load.
--   Save      main/cmd_save.c: the export of one file, and in Save/Archive.antt cmd_save.
--   SockPush  main/sockpush.c: System is the two threads that share an sp_item_t, as steps in any order,
--             with the locks of user_mutex that the reader's other calls wait for.
--   CmdName   main/cmdsearch.c: cmd_getname, and cmd_run in CmdName/Run.antt.
--   Request   main/dterm.c: sub_proc_lineinput, one request line and what is written back.
--   Dterm     main/dterm.c: the line editor, sub_str_mark and sub_str_sanitize, the decoding of
--             keystrokes, and the prompt with its mutex. Dterm/Batch.antt has the lines that
--             dterm_socket_clithread and dterm_cmdfile read.
--
-- How state is modelled: a C string or buffer is the list of its bytes from a pointer on, a pointer
-- into it is an offset; a struct is a record; a function that changes a struct returns the new one;
-- a goto to the end of a function is a constructor or a number that the rest of the chain passes on.
-- An int is a `ℤ`, a size_t or a field of fixed width a native number with its wrap-around written
-- out where the code lets it happen. `none` stands for a null pointer, and as the result of a
-- command for an access outside memory.
--
-- Fuel and bounds: the loops of the history are on fuel, and each is given the size of the ring;
-- that this is enough is a theorem where the loop's end is not plain from its definition. The
-- exchange with the device manager has no fuel: it consumes the events of its rounds. All other loops
-- are structural on the bytes or devices they go over.
--
-- Not modelled: main/main.c and main/cliopt.c (options and set-up), main/popen2.c (a child process),
-- the loops of main/cmd_open_load.c that read a directory of JSON files, dterm_socketer and dterm_piper
-- of main/dterm.c, cmd_init of main/cmdsearch.c, the client, the tests and the Python client. libotfs,
-- argtable, cJSON, bintex, talloc and the system's calls are not in the repository, and are arguments where
-- the code uses their results.
pub mod Args
pub mod Base
pub mod Cjson
pub mod CmdName
pub mod DevCmds
pub mod DevLink
pub mod DevList
pub mod DevMgr
pub mod Dterm
pub mod Files
pub mod Hex
pub mod History
pub mod JsonTools
pub mod OpenLoad
pub mod Otfs
pub mod Output
pub mod PushPull
pub mod Request
pub mod Save
pub mod SockPush
pub mod Text
