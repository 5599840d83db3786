-- ===== src/Json.antt =====
-- json/: values (json.hpp), the parser (parse.cpp) and the printer (stringify.cpp).
pub mod Property
pub mod Entries
pub mod Strings
pub mod Parse
pub mod Stringify
pub mod Fuel
pub mod Ends
pub mod Plain
pub mod Clean
pub mod Walk
pub mod Read
pub mod Ranges
pub mod Brackets
pub mod Members
pub mod Order
pub mod Parts
pub mod RoundTrip
mod Tests
