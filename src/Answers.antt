-- ===== src/Answers.antt =====
-- The answers of the server that the editor handles besides the rows of queries: the effect on jsonObject
-- in web/src/components/sqleditor/components/Utils/visibilityProvider.js.
pub mod Defs
mod Keys
pub mod Objects
pub mod Menus
mod Tests
