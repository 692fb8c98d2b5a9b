-- ===== src/Lib.antt =====
-- A verification library of jsonv, the JSON parser and validator in C.
--
-- A document goes through these parts: src/parser/prescan.c estimates what parsing takes;
-- src/parser/lexer.c turns the bytes into tokens; src/parser/parser.c, a pushdown parser with one
-- token of lookahead behind the current one, builds the nodes of src/parser/ast.h, enters the keys
-- of every object into the set of src/comm/struct/set.c, by which it skips duplicates, and into the
-- trees of src/parser/keytree.c; its three stacks are those of src/comm/struct/stack.c. Keys with
-- escapes are compared as src/parser/unescape.c writes them. src/parser/sax.c parses with the same
-- lexer, and calls back instead of building nodes.
--
-- A program holds its values as src/shape/value.c has them: objects and arrays that count their
-- references, an object's slots named by a shape that it shares with every object whose keys came in the
-- same order. src/shape/obj.c and arr.c set and get, path.c walks by keys and indices, and serialize.c
-- writes a value as JSON text.
--
-- A schema is compiled to bytecode, which src/validation runs on the nodes of a parsed document:
-- validate.c is the loop, validate_opcodes.c has a handler for each opcode, which may run the rule at
-- another offset on the node or on a part of it, and validate_helpers.c has the formats of texts and the
-- equality of nodes.
--
-- Files and what they model:
--   Base, Base/Tests, Base/Lists: shared names, Boolean tests and lists over native numbers
--   Token: Token and TokenType of src/comm/struct/token.h
--   Lexer and its children: src/parser/lexer.c. Cursor is the state and the skipping loops, Number
--     is parse_number, Strings is parse_string, Lexer the rest; Number/Grammar and Strings/Grammar
--     are RFC 8259, sections 6 and 7, and RFC 3629, to which Sound and Complete hold the code;
--     Progress shows that the lexer stays inside the source and moves forward
--   Unescape: jsonv_unescape_string of src/parser/unescape.c
--   HashSet: src/comm/struct/set.c; Members is what it holds, Probes its loop, Inserts set_insert
--   Ast: the nodes, and src/parser/keytree.c; KeyTree is the tree that the links of a pool make,
--     KeyInsert the descent, KeyOrder the insertion and the ordered listing
--   Stack: src/comm/struct/stack.c
--   Prescan: src/parser/prescan.c
--   Arena: src/comm/struct/arena.c, the arena on its own memory, as its blocks taken at `current`
--   Parser: parse_ast of src/parser/parser.c, its loop as a function on the control stack, one turn
--     at a time; Parser/Build is link_node_to_scope. Parser/Grammar is the grammar of JSON over token
--     types; Runs, Containers, Complete and Accepts show that it is accepted, Means and Sound that
--     nothing else is, Decides puts both together; Scopes is about the stack of scopes and the set
--   Sax: src/parser/sax.c, with the callbacks and their state as parameters
--   Shape: src/shape/shape.c, the shapes as a pool and the transitions between them; Chains is the keys of
--     a shape and what the two walks find, Transitions and Added what a transition adds and keeps
--   Value: Jsonv_Value, Jsonv_Obj and Jsonv_Arr, the counts of references and the growth of capacities
--   Obj: src/shape/obj.c; Fields is an object as an ordered map, Slots, Frames and Room the steps of
--     obj_set, Sets and News that it refines the map and keeps the heap, Laws the operations together
--   Arr: src/shape/arr.c, in the same way, with Elements for an array as a list
--   Path: jsonv_value_get_path of src/shape/path.c, and Walks through fields and elements
--   Serialize: src/shape/serialize.c; Strings and Reads hold its texts to the lexer and to Unescape, Writes,
--     Buffers, Contract and Lengths are about the buffer, Visits and Total about its end
--   Formats: validate_ipv4, validate_email, validate_uuid and validate_datetime of
--     src/validation/validate_helpers.c; Octets and Ipv4 hold the first to dotted decimal, Dates the
--     last to the Gregorian calendar
--   Validate: how the validator reads bytecode and nodes, with find_property of src/parser/parser.c and
--     ast_nodes_equal; Handlers, Items, Properties and Run are the handlers of
--     src/validation/validate_opcodes.c, Machine is validate_bytecode. Applicators is about
--     allOf, anyOf and oneOf; Within, Advances, Forward, Tables and Ends are about the program counter
--     and the end of the loop; Below, Monotone with its children and Fuel about the fuel for rules
--   Tests: runs of the code, and each theorem at a concrete input
--
-- State and its bounds. A pointer into the source is the list of the bytes behind it, so a position
-- and `current_pos < source_len` are the list and a test that it is not empty; `current_pos` stands
-- beside it as a number. The code of a string escape is kept in 16 bits, the hash of a key in 32,
-- a capacity of the set and of a stack in 64, `top` of a stack in 31; the index of a probe is that of a capacity below 2^32.
-- The three stacks of parse_ast are lists here, and growing them, and an ALLOC for a long key, are
-- taken to succeed; Stack shows that the array behind
-- them holds such a list up to 2^31 elements, where the int `top` overflows.
--
-- A pointer to a shape, an object or an array is an index into the heap; whether an allocation succeeds
-- is a parameter, and an access out of bounds or through NULL is the result none. A reference count is
-- the 32 bits of its int; a capacity doubles as an int does, up to 2^30. A key and a text are the bytes
-- in front of the NUL, a double is its 64 bits, and what snprintf prints for one is a parameter.
--
-- The validator takes regular expressions, strtod and the operations on doubles as parameters; an error is
-- its type and its path, without the description. Its verdict `faulty` is a read out of bounds, a chain of
-- siblings without an end, or a lack of fuel.
--
-- Fuel. scan_string has one more than the bytes left, unescape_string the length of its input,
-- parse_ast seven turns for each byte and 32, jsonv_parse_sax three calls for each byte and 8, an
-- insertion into a key tree the nodes of its pool, and so has the listing of a tree. A walk along a
-- shape has the shapes of the pool, the growth of a capacity 32 turns, serialize_val one level of
-- nesting for each object and array and one. That it is enough is proved for each: the theorems below on what these functions return hold on that fuel.
--
-- The loop of validate_bytecode has a turn for each byte of the bytecode and one. Its own fuel, for the
-- rules that a rule calls, is the caller's: compiled code may name itself without an end, and the source
-- then does not return. Where the fuel is used up, the verdict is `faulty`. The equality of nodes has one
-- level of nesting for each node and one, which is not proved to be enough; where it is not, the verdict
-- is `faulty`.
--
-- Not modelled: an arena with custom operations, the conversions of numbers to double and int64, the
-- compiler of schemas in src/validation/schema.c, the descriptions of errors, the YAML build, the
-- context with its entry points, printing, the command line; and list, table, atom, mem and except, a
-- copy of the library of C Interfaces and Implementations.
pub mod Base
pub mod Token
pub mod Lexer
pub mod Tests
pub mod Unescape
pub mod HashSet
pub mod Ast
pub mod Stack
pub mod Prescan
pub mod Parser
pub mod Sax
pub mod Shape
pub mod Value
pub mod Obj
pub mod Arr
pub mod Path
pub mod Serialize
pub mod Formats
pub mod Validate
pub mod Arena
