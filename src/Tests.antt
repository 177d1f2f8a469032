-- ===== src/Tests.antt =====
-- The theorems at concrete inputs, and runs of the code on small inputs.
pub mod WireTests
pub mod RouterTests
pub mod ReaderTests
pub mod SocketTests
pub mod WebSocketTests
pub mod FriendsTests
pub mod HttpTests
pub mod UserTests
pub mod GetChainTests
pub mod AccountsData
pub mod AccountsTests
pub mod LoginTests
pub mod AudioData
pub mod AudioTests
pub mod ListedTests
pub mod OneRow
