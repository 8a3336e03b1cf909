-- ===== src/Lib.antt =====
-- A model of the OMNM payload bridge: the code that keeps an OpenMAMA message as one flat buffer.
--
-- A message (`OmnmPayloadImpl`, src/Payload.h) is a buffer of bytes with a tail. The buffer begins with
-- a header of three bytes; behind it stand the fields, each with its type, fid, name, a length where
-- the type calls for one, and data. Accessors look for a field by walking over the buffer with an
-- iterator (src/Iterator.cpp), and change the buffer in place or append to it (src/Payload.cpp). A
-- field structure (`omnmFieldImpl`, src/Field.cpp) points into the buffer of its message.
--
--   Mama       the codes and calls of libmama and libwombat that the bridge stands on, as a record
--   Memory     reads and writes of a block: a read or write past its end is `fault`
--   FieldType  isFieldTypeSized, isFieldTypeFixedWidth, areFieldTypesCastable of src/Payload.cpp
--   Message    the structs of src/Payload.h, the constructor, clear and getHeaderSize
--   Iterator   src/Iterator.cpp, and the loops over the iterator
--   Wire       the abstract view of a message, a list of entries, and what it is to represent one
--   Payload    findFieldInBuffer, getField, addField, updateField
--   Bridge     create, destroy, copy, clear, serialize, unSerialize, counting, iterateFields
--   Scalar     the accessors of numbers of src/Payload.cpp and src/Field.cpp
--   Vector     the accessors of vectors of numbers
--   Blob       the accessors of strings, opaque data and sub-messages
--   Strings    the accessors of vectors of strings
--   Field      type, fid and name of a field; create, associate and destroy of an iterator
--   Blocks     the loops that fill mField.mBuffer with one block after the other
--   Objects    the date-time and price objects of libmama, as a record, and what the code relies on
--   Structs    what the accessors of date-times and of prices have in common
--   DateTime   omnmDateTime, its conversions, and the accessors of date-times
--   Price      omnmPrice, its conversions, and the accessors of prices
--   Messages   the accessors of vectors of messages
--   Apply      omnmmsgPayload_apply
--   Print      the texts of fields and of messages
--   Reach      the states of a message under any sequence of changes
--   Ownership  what messages, field structures and iterators own, and its release
--   Safety     the setters on every branch, and in any sequence with clear, copy and apply
--   Tests      a concrete library and message, at which the theorems are applied
--
-- A component's operations stand in the file of its name, its theorems in the files below it. An
-- operation takes the message and returns a status with the message afterwards, in a run that ends
-- with a value or a fault. A pointer into the buffer is an offset; a message argument that may be NULL
-- is an option, and a Boolean argument says that an out parameter is given. Families of functions that
-- differ in the type only (addBool up to addF64) are one definition with the type as an argument.
--
-- The layout of structs is that of a 64-bit little-endian build. `allocateBufferMemory` returns a block
-- that begins with the old one and is as large as asked for, or fails; addField and updateField ignore
-- its failure, as the source does. Conversions from and to floating-point numbers are a parameter.
--
-- Loops over the iterator run on fuel, two more than the tail of the message. Each round but the first
-- moves on by four bytes at least, so that this is enough on every buffer, also on one that is not a
-- well-formed message. The loop over the strings of a field runs on as much fuel as the field has
-- bytes, and so does the loop over the messages of a field, whose rounds move on by four bytes.
--
-- The source of omnmmsgPayload_apply is taken to be another message than its target. The arrays of
-- objects that the getters of vectors fill are arguments, as they are after they were enlarged. What
-- snprintf makes of a number, and libmama of an object, is a parameter of the printing functions.
--
-- Ownership keeps account of blocks by a ledger of those that live; a block is a number there, and a
-- sub-message its version and its length. Of the calls that make a message own more, those of
-- omnmmsgPayload_apply are left out there, whose iterator leaks what its field structure comes to own.
-- An array of pointers there is its size in bytes with its first elements, behind which the others up
-- to that size are NULL; it is released by the stored size. The other parts do not release memory, which no value that they compute depends on.
--
-- Not modelled: the test programs, the headers of prototypes and the build files.
pub mod Prelude
pub mod Mama
pub mod Memory
pub mod FieldType
pub mod Message
pub mod Iterator
pub mod Wire
pub mod Payload
pub mod Bridge
pub mod Scalar
pub mod Vector
pub mod Blob
pub mod Strings
pub mod Tests
pub mod Field
pub mod Reach
pub mod Blocks
pub mod Structs
pub mod Objects
pub mod DateTime
pub mod Price
pub mod Apply
pub mod Messages
pub mod Print
pub mod Ownership
pub mod Safety
