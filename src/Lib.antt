-- ===== src/Lib.antt =====
-- Verification of tactmon. src/libtactmon/libtactmon is the library that reads the TACT content
-- distribution formats and talks to Ribbit servers; src/tactmon is the application, which watches
-- for new versions of products, keeps them in a database, and serves their files.
--
-- Parts of the library and files (paths relative to src/libtactmon/libtactmon):
--   * Utility/Endian, Utility/Hex: utility/Endian.hpp (byteswap, to_endianness) and utility/Hex.cpp
--     (hex, unhex).
--   * Io: the streams. Readable is io/IReadableStream.hpp: the virtual methods are the record
--     ReadableStream, and Read, ReadString and ReadCString are written once over it. Writable is
--     io/IWritableStream.hpp. Growable and Span are the classes of io/MemoryStream.hpp, File is
--     io/FileStream.hpp. Readable/Laws has the interface that the proofs use: a stream At its unread
--     bytes reads them in sequence. Growable/Reads and File/Reads show that these two streams do.
--   * Text: Tokenizer is detail/Tokenizer.hpp, and Numbers is std::from_chars as it is called.
--   * Tact/Key: tact/detail/Key.cpp, tact/CKey.cpp and tact/EKey.cpp (the last two are alike).
--   * Tact/Config: tact/config/BuildConfig.cpp (Build) and tact/config/CDNConfig.cpp (Cdn).
--   * Tact/Blte: tact/BLTE.cpp, the archives in chunks.
--   * Tact/Data: tact/data/FileLocation.cpp, Encoding.cpp, Install.cpp, Index.cpp, and Root, which is
--     tact/data/product/wow/Root.cpp. Product has the searches and Refresh of
--     tact/data/product/Product.cpp and wow/Product.cpp, and Resolve of Utility.hpp.
--   * Tact/Cache: tact/Cache.cpp and Cache.hpp, over an interface FileSystem. Download:
--     net/DownloadTask.hpp, FileDownloadTask.cpp and MemoryDownloadTask.cpp.
--   * Ribbit: Records is ribbit/types, Commands is ribbit/Commands.cpp, and Execute is
--     ribbit/Commands.hpp and Enums.hpp.
-- Parts of the application and files (paths relative to src/tactmon):
--   * Backend/Monitor: backend/RibbitMonitor.cpp, over an interface Products to the table of products.
--   * Backend/Product and Backend/ProductCache: backend/Product.cpp and backend/ProductCache.cpp. Builds
--     and Runs have the invariant of the cache, Expiry the time that a build stays in it.
--   * Backend/Pool: backend/ConnectionPool.cpp, with the moves of threads as a step relation: threads
--     that wait on the condition variable, that have been woken there, and that are about to notify
--     are counted.
--   * Backend/Orm: backend/db/orm. A template with a static render_to is a function that gives a
--     Component, a record of render_to and of the types of the parameters. Shared has Column, Entity,
--     Projection, Predicates and Shared.hpp; Selectors and Statements the files of these names and
--     the folders select, insert, update and delete; Digits has Explode. Renders says what a
--     component adds to a text.
--   * Backend/Repository: backend/db/orm/PreparedStatement.hpp and the copy of a table of
--     backend/db/repository/Repository.hpp.
--   * Backend/Entities: backend/db/entity, the statements that the repositories prepare.
--   * Net: net/Session.cpp and net/Server.cpp. Request is the target of a request, Address are the
--     links to it, Transfer is the loop over the servers that have a file, and Outgoing is the queue
--     of answers, with the ends of reads and writes as a step relation.
--   * Program: the listener in Program.cpp. Laws is about the builds that it collects, Again about
--     versions that come a second time.
--   * Beast/Transform: beast/BlockTableEncodedStreamTransform.cpp; Blocks is about its data blocks.
-- Shared:
--   * Prelude: numbers, lists, results and tests that the parts share. Tests: the theorems at
--     concrete inputs.
--
-- A product asks Ribbit for its servers and versions, resolves its configurations and manifests on
-- disk or from a server, unpacks them as BLTE archives into growable streams, and parses these into
-- manifests; a file name or id goes through the install or root manifest to a content key, through
-- the encoding manifest to encoding keys, and through the indices to a place in an archive. The
-- monitor compares the summary of Ribbit with the table of products and calls its listeners, who
-- have builds loaded by the cache of products and post links; a link comes back as a request to the
-- server, which fetches the range of the archive and hands it on through the transform.
--
-- Conventions: bytes and characters are natural numbers in lists. A std::size_t is a natural number
-- whose sums and differences are taken modulo 2 ^ 64 (add64, sub64) where the source may wrap
-- around. An operation gives a Result: ok, or the fault `undefined` for an access out of bounds or a
-- division by zero, `hangs` for a loop without end, `throws` for an exception. The native byte order
-- is little endian. Stateful code takes and returns the stream or the buffer.
--
-- Fuel: ReadCString takes a number of rounds, and one more than the length of the text is enough.
-- The tokenizer takes the length of its input, which is always enough. The inflate loop, the pages
-- of the encoding manifest, the blocks of the root manifest and the turns of the transform take fuel
-- as an argument. The digits of a number take the number itself, which is always enough; the binary
-- search of the root manifest takes the number of entries, which is always enough.
--
-- Parameters: MD5 and the hash of Jenkins, zlib (the record Zlib), the exchange over the network,
-- the boundary of a multipart answer, the file system, and, for a product, the cache and the
-- downloads, over a state; for the application the tables of products and of builds, the outcome of a
-- transaction, whether a product can be loaded or throws, how the resolution of the configuration of
-- a version ends, how a number is formatted, which servers have a file, and how each attempt to read
-- from one ends. Time is an argument.
--
-- Not modelled: the making of directories in tact/Cache.cpp, the loading of a product, crypto
-- (OpenSSL and lookup3), detail/ctre.hpp and libassert (copies of other projects); of the application
-- the transactions of libpqxx, the Discord frontend, the start of the program, and the accepting of
-- connections.
pub mod Prelude
pub mod Program
pub mod Utility
pub mod Io
pub mod Text
pub mod Tact
pub mod Download
pub mod Ribbit
pub mod Backend
pub mod Net
pub mod Beast
pub mod Tests
