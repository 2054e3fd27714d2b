-- ===== src/Lib.antt =====
-- RetroDesk, a desktop in a text terminal: the window manager, the UTF-8 routines, the widgets and
-- the small services of src/ as functions by clauses, with theorems about them.
--
-- The platform layer delivers events (src/core/event.h, here Event), which a decoder reads from
-- the bytes of the terminal (src/platform/tty_decoder.c, here Tty). The desktop passes them to the
-- window manager (src/wm/window_manager.c, here Wm), which routes them to the windows; the
-- callbacks of the windows belong to applications (src/app/app_runtime.c, here Apps), which answer
-- by calls of the window manager and pass the keys on to widgets: a line of text
-- (src/ui/text_input.c, here TextInput), a list (src/ui/scroll_list.c, here ScrollList), a row of
-- tabs (src/ui/tab.c, here Tab), a button (src/ui/button.c, here Button), a progress bar
-- (src/ui/progress_bar.c, here ProgressBar), a text of several lines (src/ui/text_buffer.c, here
-- TextBuffer). Texts are UTF-8 (src/core/utf8.c, here Utf8); applications share a clipboard
-- (src/core/clipboard.c, here Clipboard). The command line (src/core/cli.c, here Cli) chooses the
-- backends.
--
-- State and operations. Wm/Window and Wm/State have the records `RetroWindow` and `WindowManager`
-- and the static helpers, Wm/Operations the public operations under their names without `wm_`,
-- Wm/Events `wm_handle_event` with its steps. The windows are a list from bottom to top; a pointer
-- to a window is its id, and a write through it is `modify`. A callback is a number; what it does
-- is a parameter, and in Wm/Session it is any list of requests to the window manager, which may
-- depend on the whole state. TextBuffer/State has the record `TextBuffer` with its positions and
-- offsets, TextBuffer/Content the reading and writing of the whole text, TextBuffer/Editing the
-- editing functions and movements, and TextBuffer/Dispatch the key table; TextBuffer/Search finds
-- a query. What the buffer implements is the document of TextBuffer/Doc, rows of characters with a cursor
-- in one of them, edited as in TextBuffer/Edit; TextBuffer/Flat reads the document as one line
-- with newlines in it. Tty/Decoder has the decoder with the bytes that wait as a list, Tty/Numbers
-- its numbers in digits. Tty/Pointer says what the three numbers of a mouse report mean, and
-- TextBuffer/Places where a position stands in the text. TextInput/Widget, ScrollList/Widget,
-- Tab/Widget, Apps/Registry, Apps/Close and Clipboard name their operations in the same way.
-- Rendering is modelled as the arguments of the calls of `draw_list_text`, in ScrollList/Render
-- and Tab/Render. Keys has the key codes of src/core/key_chord.h.
--
-- Conventions. A C string is the list of its bytes before the NUL. A pointer argument is not NULL,
-- but where a function does more with NULL than return. An allocation is a Boolean argument that
-- says whether it succeeds, so that every failure is covered. A count that the C code keeps beside
-- an array is the length of the list. `int` is the integers, since screens are far smaller than
-- its range; sizes are the natural numbers.
--
-- Fuel. `validate_loop`, `valid_prefix_loop` and `prefix_loop` of Utf8/Scan have as many rounds as
-- there are bytes, and each round takes one at least. `double_until` of Growth has as many rounds
-- as the size that is wanted, and each doubles a positive capacity. `next_focusable` has the
-- rounds of its C loop. `double` of Apps/Registry has 64 rounds, which take 8 beyond every size
-- that it is asked for. `columns_loop` and `boundary_loop` of TextBuffer/State have as many rounds
-- as bytes, and take one at least in each, as do `parameters_loop` of Tty/Numbers and the loops of
-- TextBuffer/Search. `segment_draws` of Tab/Render has a round for each column and takes one at
-- least in each.
--
-- Not modelled: the rendering of windows, of the text input and of the text buffer, the draw lists
-- and renderers, the platform layer but for the decoder, the storage layer, the desktop and the
-- applications, menus and dialogs; the wrapped lines of the text buffer, and its capacities but as
-- the question whether memory suffices; a callback that calls `wm_handle_event` again; what
-- `can_close` of an application writes to the instance, of which only the answer is modelled.
pub mod Prelude
pub mod Event
pub mod Tty
pub mod Wm
pub mod Utf8
pub mod Growth
pub mod Keys
pub mod TextInput
pub mod ScrollList
pub mod Tab
pub mod Clipboard
pub mod Apps
pub mod Cli
pub mod Tests
pub mod Button
pub mod ProgressBar
pub mod TextBuffer
