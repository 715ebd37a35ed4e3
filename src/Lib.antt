-- ===== src/Lib.antt =====
-- A model of the core of the game server under engine/src: the C++ program that keeps the world,
-- talks to the clients and decides every request. Definitions are translated from the source one
-- function at a time, under the source's names in lower case; a parameter or a field stands for
-- what a function asks of another part (the clock, a setting, the answer of an event script).
--
-- The parts, and the files that model them:
-- - Common: Boolean tests, lists, integers and sets that the other files share.
-- - Position: engine/src/position.h, and `getNextPosition` and `getDirectionTo` of
--   engine/src/tools.cpp. `uint16_t` and `uint8_t` coordinates wrap where the source stores them.
-- - ReturnValue: the enumeration of engine/src/enums.h that operations answer.
-- - WildcardTree: engine/src/wildcardtree.cpp. `WildcardTreeNode` is the data type `Node`, its map of
--   children an association list; `insert`, `remove` and `find_one` are the operations.
-- - Network: engine/src/networkmessage.h and networkmessage.cpp (Message: the buffer of 65500 bytes,
--   its position, its length, the readers and the writers), engine/src/protocol.cpp (Xtea: the two
--   ciphers over blocks of 8 bytes, 32 rounds each; Protocol: the padding, the headers of
--   engine/src/outputmessage.h, and what `onSendMessage` and `XTEA_decrypt` do with a message, in
--   Framing, Packing and Sealed), and `adlerChecksum` of engine/src/tools.cpp (Checksum).
-- - Sha1, Token: `transformToSHA1` and `generateToken` of engine/src/tools.cpp, the digest of passwords
--   and the one-time password of a second factor, against their standards (Padding, Hotp).
-- - Party: engine/src/party.cpp, one party together with what each player's object says of it, and
--   the requests of engine/src/game.cpp that reach a party (Party/Calls). Messages to clients are
--   left out; the event scripts' answers, levels, places and the clock are the record `Env`.
-- - WaitingList: engine/src/waitlist.cpp, the queue in front of a full server. Its `erase` of an entry
--   through the other list, which std::list leaves undefined, has the result `none`.
-- - Ban: `Ban::acceptConnection` of engine/src/ban.cpp, the limit on connections from one address.
-- - Scheduler: engine/src/scheduler.cpp and tasks.cpp. The threads are sequences of steps, each what
--   one thread does while it holds the lock; the priority queue is a list of which an entry that is
--   due first is taken.
-- - Tile: engine/src/tile.cpp. `Tile::queryAdd`, whether a creature or an item may come onto a tile
--   (Tile, Items, Entry, Zones); `addThing`, `removeThing`, `getThing` and `getThingIndex` on the
--   vector of items with its count of down items (Contents), how the lists lie (Stack, Kept), what
--   the operations make of a tile (Changes, Additions, Reached), indices (Index) and `replaceThing`
--   (Replace).
-- - Container: engine/src/container.cpp. `Container::queryAdd`, whether an item may be put into a
--   container, with what the container around everything answers (Container, Nesting); and what the
--   calls that change a container do to its weight and to that of the containers around it (Weights).
-- - FileLoader: engine/src/fileloader.h and fileloader.cpp, the trees of nodes in which items and maps
--   are stored: the loader as a machine that takes one byte a step (FileLoader), how a tree lies in a
--   file (Printed), what a tree takes of a file (Sizes), and the streams of properties (Streams).
-- - Experience: `addExperience`, `removeExperience`, `getPercentLevel` and `getExpForLevel` of
--   engine/src/player.cpp and player.h; what an event script makes of the points is a parameter. The
--   points of a level (Curve), the level after a change (Levels), and changes together (Exchange).
-- - Map: engine/src/map.h and map.cpp, `getTile` and `setTile` over the table of leaves and their
--   floors; a tile that is set where there is one is put together with it by Tile's `addThing`.
-- - Money: `addMoney` and `removeMoney` of engine/src/game.cpp with `getWorth` of
--   engine/src/item.cpp: what they find in a cylinder (Gathering), the coins they make (Coins), and
--   what they take (Paying). The calls that change the world are their result.
-- - Inventory: `queryAdd`, `addThing` and `removeThing` of engine/src/player.cpp over the slots of what
--   a player wears, and the move of engine/src/game.cpp's `internalMoveItem` after `queryAdd` has let
--   an item pass; what each slot answers (Answers), and what the hands hold (Hands).
-- - Chat: engine/src/chat.cpp: the channels, their users and who is invited, and the requests of
--   engine/src/game.cpp that reach them (Calls). A pointer to a channel is the map that holds it and
--   its key. What a private channel keeps (Privacy, Owners, Requests, Created, Runs), and a player who
--   leaves the game (LoggedOut).
-- - Tests: runs on fixed inputs and instances of the theorems.
--
-- The server asks Ban whether an address may connect, reads a message off the connection (Network),
-- lets the player in or into the queue (WaitingList), enters the name (WildcardTree), and from then
-- on turns the player's messages into requests (Party, Chat, Position, Map, Tile, Container, Inventory, Money), on the
-- thread of the dispatcher, where the events of the scheduler run too. What is killed gives Experience;
-- the Map is filled from a tree of nodes (FileLoader) when the server starts.
--
-- Every loop is structural recursion over the list, the string or the tree that the source walks,
-- or over the count of the source's `for`, but for the outer loop of `adlerChecksum`: it runs on fuel,
-- as much as there are bytes, and each turn takes one byte at least; and the two `while` loops of
-- money: over crystal coins, with one unit for each coin, and over containers, with one for each
-- container at any depth, which Money/Gathering shows to be enough. The search for the number of a
-- private channel has as much as there are numbers. The loops over
-- levels have as much as the experience, or as the level, which Experience/Levels shows to be enough.
--
-- Not modelled: what only talks to the database, the file system, the network library or Lua; the
-- XML tables; floating-point formulas; and the locks, since each function that is modelled runs
-- under one lock or on the dispatcher's thread alone.
pub mod Common
pub mod Position
pub mod ReturnValue
pub mod WildcardTree
pub mod Network
pub mod Party
pub mod WaitingList
pub mod Ban
pub mod Chat
pub mod Container
pub mod Experience
pub mod FileLoader
pub mod Inventory
pub mod Map
pub mod Money
pub mod Scheduler
pub mod Sha1
pub mod Tile
pub mod Token
pub mod Tests
