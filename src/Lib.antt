-- ===== src/Lib.antt =====
-- freshplayerplugin: a host for PPAPI plugins in NPAPI browsers. The parts modelled here are those
-- that the interfaces of the plugin stand on: the table of resources, the table of variables,
-- message loops, network addresses, descriptions of requests, input events and pictures as resources, the
-- resolution of URIs, the parser of HTTP headers, and the names of encodings.
--
-- Base has the names that all modules share: the libraries' names, Boolean tests, lists measured by
-- native numbers, byte strings, signed integers for counters, and association lists, which stand
-- for GLib's hash tables with integer keys.
--
-- Resource models src/pp_resource.c and src/pp_resource.h. A record Registry has the static
-- variables res_tbl, res_tbl_next and the destructors by type; allocate, acquire, release, get_type,
-- add_ref, unref, expunge and register are the functions pp_resource_allocate and so on, and
-- register_resource. The structure behind the common fields is a type parameter. An attempt of
-- acquire is one pass of its loop: with the resource, without one, or with the lock taken.
-- Resource/Owners has a step relation for threads that own references and hold locks, and its
-- invariant; Resource/Holding what the operations do in the states that can be reached;
-- Resource/Histogram the counting of resources by type.
--
-- Var models src/ppb_var.c. A record VarTable has var_ht, var_id and a log of the browser objects
-- given back. release makes the nested calls that C makes through destroy functions, from a list of
-- the calls still to make; its fuel is the number of variables with the number of their places for
-- others, plus two. get_new_var_id has as much fuel as there are variables, plus one. Var/Values
-- has strings and array buffers, Var/Containers arrays and dictionaries, Var/Objects the calls
-- through an object's class, whose functions are parameters. Var/Release, Var/Claims, Var/Ids,
-- Var/Contents and Var/Shared have theorems on the table and on its reference counts.
--
-- Uri models src/uri_parser/uri_parser.c: Uri/Dots remove_dot_segments, with the segments of
-- RFC 3986 in Uri/Dots/Segments, and Uri/Merge uri_parser_merge_uris, whose parser of URIs is an
-- argument, since the build generates it from a grammar.
--
-- MessageLoop models src/ppb_message_loop.c over Resource: a loop is the body of a resource. Every
-- operation on a loop acquires it from the table, changes the body and releases it. The tree of
-- tasks, in MessageLoop/Queue, is the list of its in-order traversal. MessageLoop/Run has
-- ppb_message_loop_run_int: rounds are given as a list, each with the clock's time and with what
-- other threads have posted, and the callbacks are a function on the loop. A run for which the
-- rounds do not suffice is `none`. The fuel of the loop that carries nanoseconds over is the number
-- of seconds in them, plus one.
--
-- Resource/Access has the patterns that the interfaces of the plugin follow on a resource: a
-- constructor that allocates and fills it, and operations that acquire it, read or change it, and
-- release it. NetAddress, UrlRequest and InputEvent are such interfaces.
--
-- NetAddress models src/ppb_net_address.c: the structure is its size with its bytes, of which
-- NetAddress/Fields has what can be read back, and NetAddress/Handles the same through resources.
-- The fuel of a printed number is its five digits.
--
-- UrlRequest models src/ppb_url_request_info.c. The switch of set_property is assign, a function on
-- the request that is `none` where the source answers PP_FALSE; UrlRequest/PostData is the body of
-- a request, whose files are resources of the same table. What the file system says of a file is a
-- parameter there, and what they contain is one of UrlRequest/PostData/Writing, which puts a body
-- together; the loop over a file has rounds, of which one more than there are bytes is enough.
--
-- InputEvent models src/ppb_input_event.c: InputEvent/Pointer has mouse, wheel and touch events,
-- and InputEvent/Texts keyboard and IME events, whose texts are variables of Var. Times and
-- coordinates stand as bit patterns, and a mask of classes as a function from its bits.
--
-- Graphics models src/ppb_image_data.c in Graphics/Images and src/ppb_graphics2d.c in
-- Graphics/Contexts. The memory of a picture and the cairo surface over it are one value. A flush
-- runs the list of tasks with the images from the same table; what cairo paints, and the sizes by a
-- scale, are in a record of the libraries' operations. Graphics/Contexts/Immediate is painting
-- without a list of tasks. Left out are the calls of the X server and the request for a redraw.
--
-- Buffer models src/ppb_buffer.c, AudioConfig src/ppb_audio_config.c, UrlUtil src/ppb_url_util.c,
-- which resolves the URLs that variables hold, and Core src/ppb_core.c, which posts callbacks to
-- the main and the browser thread's loops. What the browser does with an asynchronous call is not
-- modelled; activate_browser_thread_ml is the function that it is asked to call.
--
-- Stream models the body of a response: ppb_url_loader_read_response_body of src/ppb_url_loader.c
-- and NPP_Write and NPP_DestroyStream of src/np_functions.c, over the loader's temporary file as a
-- string of bytes. Stream/Serving/Steps has sequences of the browser's writes and the plugin's reads.
--
-- UrlLoader models the rest of src/ppb_url_loader.c, with the calls for streams of
-- src/np_functions.c in UrlLoader/Arrival and src/ppb_url_response_info.c in UrlLoader/Responses.
-- UrlLoader/Sending is url_loader_open_ptac, with the browser's functions as a parameter;
-- UrlLoader/Opening is ppb_url_loader_open_target and ppb_url_loader_follow_redirect. These post a
-- task and run their message loop until the browser's thread is done; here the call is made at
-- that place, and what else happens to the resources meanwhile is a parameter. What is read through
-- the pointers of a call's parameters is what they had when the call was posted. A caller without a
-- callback waits in a loop, which sees a list of tables.
--
-- XEvent models the events of X in src/np_functions.c: NPP_HandleEvent, the handlers that it calls,
-- their input events, and the task of the main thread that hands an event to the plugin. XEvent/Methods
-- has keys and the input method, XEvent/Delivery that task, and XEvent/Sending and XEvent/Pointers the
-- handlers for the pointer. The arithmetic of doubles, the table of key codes, the lengths of
-- characters, drawing, and what X and the input method make of a key are parameters.
--
-- Headers models src/header_parser.c and EncodingAlias src/encoding_alias.c; the list of encodings
-- that the latter includes is an argument. EncodingAlias/Stripping has what counts of a name.
--
-- Tests has runs on concrete inputs.
--
-- Taken for granted: a counter of type `int` does not overflow; an allocation succeeds; delays
-- are not negative; and within Var, each function runs without another thread in between. In
-- MessageLoop/Run the parts of a loop's body that the source changes without the lock are changed
-- in the same record. Printing of traces is left out, and so are the conversions between variables
-- and the browser's values, which call the browser.

mod Base
mod Tests
pub mod Resource
pub mod Var
pub mod Uri
pub mod MessageLoop
pub mod Core
pub mod NetAddress
pub mod UrlRequest
pub mod InputEvent
pub mod Graphics
pub mod Buffer
pub mod AudioConfig
pub mod UrlUtil
pub mod Stream
pub mod UrlLoader
pub mod XEvent
pub mod Headers
pub mod EncodingAlias
