-- ===== src/Lib.antt =====
-- Verification of bookworm, a library management system for the terminal.
--
-- The program has five crates. bookworm-input edits text: a text with a cursor and a selection, a
-- recorder that applies edits to several texts at once and replays them on others, and the command
-- line with its completions, which is cut up into words. bookworm-app reads the words as a command.
-- bookworm-records holds the metadata of books and names its columns. bookworm-database stores and
-- pages books, and bookworm-tui draws. Modelled are bookworm-input, the parser and the columns of
-- bookworm-app, the books and series of bookworm-records, the paginator, the views and the cache
-- of bookworm-database, and the scrolling of bookworm-tui. A key press changes the command line
-- (`CommandString`), whose words (`get_values`) go to `parse_args` as a list of arguments. The
-- paginator holds a piece of the list of books that the database sorts by the columns of the rules,
-- and shows a window on it; the cache holds the books that were read, and merges those that are alike.
--
-- Base: numbers, lists, texts and options. A text is the list of its characters, each a Unicode
-- scalar value; `byte_len` is the length in bytes. Maps has maps and sets as lists, in the place of
-- `HashMap` and `HashSet`: the order of the list stands for the order of iteration, which the code does
-- not choose. Order has comparisons and what is a total preorder; texts are compared by characters,
-- which for UTF-8 is the order of their bytes. Ends looks at lists from both ends, Elements at indices.
--
-- Input/Cursor: `CursoredText` of bookworm-input/src/user_input.rs. A method `m` is `do_m`, and `step`
-- runs the method that an event names; the option `none` is a panic. Span states what the keys promise
-- of two positions, an anchor and the cursor; Refines compares both. Chunks: `char_chunks`.
--
-- Input/Recorder: `EventBuffer` and `InputRecorder` of the same file. `call` runs the method for a
-- call. Replay, Replayed and Tracking compare the texts on screen with a replay of the events.
--
-- Input/Words: `CommandStringIter`, `Quoted` and `vals_to_string` of the same file. `round` is one round
-- of the loop of `next`, `words` collects all words. `words` has fuel for two calls of `next` more than
-- the line has characters: each call but the last moves the start of the line or ends the iterator
-- (Fuel). Calls and RoundTrip read back what `vals_to_string` writes; Spaces looks at doubled spaces.
--
-- Input/Autocomplete: bookworm-input/src/autocomplete.rs. What `glob` finds and the order in which
-- paths are sorted are parameters. Ring compares the ring with a queue.
--
-- Input/Command: `CommandString` of bookworm-input/src/user_input.rs, with the same parameters and a
-- parameter for `is_dir`. `call` runs the method for a call; Sound holds its invariant.
--
-- Records/Column: `ColumnIdentifier` of bookworm-records/src/book.rs and `ColumnOrder` of
-- bookworm-records/src/lib.rs.
--
-- Input/Edit: `Edit` of bookworm-input/src/lib.rs, which a command carries.
--
-- Records/Series: bookworm-records/src/series.rs. `f32` is the parameter `Floats`; `IsFloats` is what its
-- documentation says of comparison. `cmp_series` is `cmp`, and `none` its `unreachable!`.
-- Records/Variant: the data of bookworm-records/src/variant.rs, `unravel_author` and the types of files.
--
-- Records/Book: `Book` of bookworm-records/src/book.rs. The result of an edit is the book, an error,
-- which is returned before the book changes and carries none, or the panic of `unimplemented!`.
-- Columns and Frames say which columns an edit
-- changes, Tags which tags a book has, Merge what merging does. An ISBN is a parameter.
-- Records/Compare: `cmp_column` and `cmp_columns`; Order has the preorder that they decide.
--
-- Database/Query: `QueryBuilder` of bookworm-database/src/paginator.rs as the data of a query, and
-- `add_id`. Database/Paginator: loading, the window and scrolling of `Paginator` in the same file. The
-- database is the parameter `ask`, the answer to a query; `Answers` (Loading) is what the paginator relies
-- on: pages of one sorted list of all books that match. Loading and Holding hold the invariant, Down and
-- Up are one scroll, and Sessions is a list of scrolls from the start.
--
-- Database/Selection: `Selection` of the same file; `nothing_selected` is its `is_empty`. What it asks of
-- books is the record `Books`: identifiers, an order and matchers. Every book has an identifier.
-- Database/Paginator/Jumps: `home`, `end`, `make_book_visible` and `sort_by` of `Paginator`. Serving has
-- what they rely on in the database (`Serves`): the pages of Loading, those that begin at a book, and that
-- the order of the list is that of `cmp_columns` and no identifier stands twice. Places and Showing say
-- where a jump leads. `fill` panics where the database answers with more books than it was asked for.
-- Database/Paginator/Moves: the keys that move or extend the selection. Marks takes a selection for two
-- positions in the list, an anchor and a head that moves; Following, Extending, Extended, Starting,
-- Stepping, Landing, Edges, Choices and Keys are for one kind of key each, Keyboard lists the keys,
-- Session and Opened are lists of them, Shown is what is drawn, and Lost looks at `select_to_start`. The
-- mouse, which scrolls without moving the selection, is not among the keys, and of Shift+Home and
-- Shift+End only Lost says something. Database/Paginator/Refresh: `refresh` and
-- `relative_selections`; Kept says what stays on screen.
--
-- Database/Search: bookworm-database/src/search.rs. What regular expressions find and whether there is a
-- fuzzy match are parameters. Texts compares the matchers with one test of all texts of a column.
-- Database/View: `BookView` of bookworm-database/src/bookview.rs. A method of the active paginator is
-- `at_active` of the method; `at_all` is the loop over all paginators. Searches says of searches what holds
-- of their matchers, Conditions what they ask of books in a query; Scopes is about `push_scope`, Jumping
-- about `jump_to`, which panics where `join_cols` has no SQL for a matcher. `key` runs the method of a key.
--
-- Database/Cache: `BookCache` of bookworm-database/src/cache.rs. Similar and Alike have references for
-- `merge_similar_books`, Merging the comparison, Keys the lemmas on identifiers, Inserting `insert_book`.
-- Edits has `edit_book_with_id`, which replays the events of a user on a column (Input/Recorder) and
-- edits the book (Records/Book), and Known the set of columns. A book stands under its own identifier.
--
-- App/Command: the data of bookworm-app/src/parser.rs.
-- App/Parser: the same file's readers. Args splits arguments at flags and reads numbers and quotes;
-- `read_groups` has one unit of fuel for each argument, and each round takes one at least. Matches,
-- Sources and Edits are the `from_args` of searches, sources, edits, sorts and columns, and Commands
-- has `parse_args` and the rest. The result `panic` is an `expect`, a `debug_assert!` or a `remove` that
-- fails. A `usize` has 64 bits.
--
-- App/Columns: `Columns` of bookworm-app/src/columns.rs and `modify_columns` of bookworm-app/src/app.rs,
-- which carries out the command that changes the columns. The names of unicase, their equality and
-- the question to the view are parameters.
--
-- Tui/Scroll: bookworm-tui/src/ui/scrollable_text.rs. `scroll` and `blind_scroll` run the methods of
-- `ScrollableText` and `BlindOffset`; a sum stops at the bound of 64 bits. Limits compares both.
--
-- Tests: the theorems at concrete inputs, and tests of the definitions.
--
-- Not modelled: the reading of book files; the text of queries in bookworm-database; the event loop and
-- settings of bookworm-app; the widgets of bookworm-tui.
-- `join_cols` writes a query as SQL, which the database runs: both are behind `ask`, which gives no answer
-- where `join_cols` panics, as it does for a matcher without SQL. The second
-- query of a load only warms a cache, and its answer is dropped. The database, the terminal, files,
-- threads and the readers of book files belong to other crates or are input and output. A path is
-- its text. Memory is taken to be large enough, so that no length of a text overflows, and five
-- times the number of books that are asked for at once is below 2 ^ 63, as are the sums of the
-- position of a window, its size and a number of lines.
pub mod Base
pub mod Input
pub mod Records
pub mod App
pub mod Tui
pub mod Tests
pub mod Database
