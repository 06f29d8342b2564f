-- ===== src/Lib.antt =====
-- A model of coro-wayland: a coroutine runtime in C++ (src/core/) and, on top of it, a Wayland
-- client that speaks the wire protocol itself (src/wayland/), with a renderer for text and
-- widgets that lay themselves out (src/renderer/, src/widgets/).
--
-- The parts, and the file that models each:
--   Wire     src/wayland/Connection.cpp and src/wayland/include/wayland/Connection.hpp. `Wire.Args` has the
--            arguments of a message (`put_arg_to_message`, `extract_arg_from_message`), `Wire.Message`
--            whole messages (`send_message`, `read_message`), `Wire.Proxies` the table of objects, and
--            `Wire.Receive` the loop that reads from the socket and calls the handlers
--            (`recv_at_least`, `recv_messages`). `Wire.Receive` uses the header of `Wire.Message` and
--            the table of `Wire.Proxies`.
--   Scope    src/core/AsyncScope.cpp and src/core/include/AsyncScope.hpp: the atomic counter that `spawn`,
--            `nest` and `close` share, as the atomic steps of any number of tasks that interleave.
--   Strand   src/core/Strand.cpp: the lock, as steps of coroutines between their suspensions.
--   AsyncQueue
--            `AsyncQueueContext` of src/core/include/AsyncQueue.hpp: `push`, `pop` and stop requests.
--   Timers   `TimerQueue` of src/core/IoContext.cpp. The heap functions of the standard library are the
--            interface `Timers.Interface.Heap`, which `Timers.Examples` fills with a sort.
--   IoLoop   `IoContext` of src/core/IoContext.cpp and src/core/include/IoContext.hpp: the inbox of commands
--            and the loop `run`, round by round, on top of `Timers`.
--   Bwos     src/core/include/bwos_lifo_queue.hpp: `Bwos.Words` is the packing of a round and an index in
--            a 64-bit word, `Bwos.Block` a block with the operations of its owner and of thieves, and
--            `Bwos.Queue` the array of blocks (`push_back`, `pop_back`, `steal_front`).
--   ThreadPool
--            src/core/StaticThreadPool.cpp: the loop of the workers on top of `Bwos.Queue`, where what a
--            worker does under the mutex is one step.
--   Xml      src/code_generator/WaylandXmlParser.cpp: `Xml.Lexer` (`struct Lexer`, `tokenize`) and
--            `Xml.Parser` (`parse_tag`, `parse_xml_tag`, `parse_wayland_xml`). `Xml.Language` and
--            `Xml.Printing` describe the language independently of them.
--   Generator
--            src/code_generator/code_generator.cpp: the context that is made of the tree of a description
--            (`to_camel_case`, `make_subcontext`, `make_context`), from the trees of `Xml` to the
--            contexts of `Jinja.Contexts`.
--   Jinja    src/code_generator/JinjaTemplateEngine.cpp, from the text of a template to its output:
--            `Jinja.Identifiers` and `Jinja.Lexer` (`struct Lexer`, `tokenize`), `Jinja.Parser` (from
--            `find_matching_token` to `make_document`), `Jinja.Contexts` (`JinjaContext` and
--            `get_destination_context`) and `Jinja.Render` (the methods `render` of the nodes).
--            `Jinja.Contexts.Answers` and `Jinja.Render.Rules` say what paths and documents mean.
--            `Jinja.Sources` puts the lexer and the parser together (`make_document` on text).
--            `Jinja.Templates` and `Jinja.Lexer.Pieces` describe the language of templates independently of
--            the parser and of the lexer.
--   Pixels   src/renderer/PixelsView.cpp and src/renderer/include/PixelsView.hpp.
--   Layout   src/widgets/include/BoxConstraints.hpp.
--   Base     tests, lists and lemmas that the parts share.
--
-- How state is modelled: an object is a record, a method is a function that returns the new record
-- with what the method returns. A byte is a number below 256 and a machine word a number, with the
-- wrap-around written out. An exception is `none` or a constructor of a result type; so is a broken
-- precondition of `std::span`. A failed assertion ends the run, as in a build with
-- assertions (`assertion_failed` in `Wire.Receive`, `undefined` in `Jinja.Parser`). Where threads meet at atomic variables (`Scope`), each atomic access is
-- a step of a relation; where coroutines meet on the thread of a scheduler (`Strand`, `AsyncQueue`),
-- what runs between two suspensions is a step or an event. What the system calls return, and what other threads do meanwhile, is an
-- argument: the list of results of `recvmsg` in `Wire.Receive`, a list of rounds in `IoLoop`.
--
-- Bounds and fuel: `recv_messages` has fuel for the turns of its loop. A turn handles one
-- message, so more than the number of messages in the stream is enough. The loop over expired
-- timers has the number of timers and one more as its fuel, which is enough because nothing in
-- the loop adds a timer. `run` is given the rounds that it goes through. `make_document` has
-- fuel for the depth of nested blocks, for which the number of tokens and one more is enough,
-- and its loop has as much: a turn of it takes one token at least. The loops of the lexer and of
-- `get_destination_context` have the length of the string and one more: a turn takes one character
-- at least. The loop
-- of `tokenize` in `Xml.Lexer` does not always end; its number of turns is an argument there, and
-- `parse_xml_tag` has fuel for the depth of tags, for which the number of tokens and one more is
-- enough. The loops of `push_back`, `pop_back` and `steal_front` have the number of blocks and one
-- more: a turn goes on by one block.
--
-- Not modelled: coroutine frames and promises, which the compiler makes; sockets, the wake-up
-- descriptor and the timeout of `ppoll`; interruptions of the methods of `Bwos.Block` and of
-- `Bwos.Queue`; memory orders weaker than sequential consistency; the generated protocol classes,
-- which do not exist in the source; logging; fonts and widgets, which draw what libraries render;
-- channels and combinators, whose state is in coroutine frames; frame buffers, which the generated
-- classes create; the command line and the files of the code generator.
pub mod Base
pub mod Wire
pub mod Xml
pub mod Generator
pub mod Scope
pub mod Strand
pub mod AsyncQueue
pub mod Timers
pub mod IoLoop
pub mod Pixels
pub mod Layout
pub mod Bwos
pub mod ThreadPool
pub mod Jinja
