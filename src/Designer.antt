-- ===== src/Designer.antt =====
-- The table designer (DesignerPanel of the SQL editor): the tables of rows that its panels edit.
mod Defs
mod Keys
mod Session
mod Saving
mod Held
mod Board
mod Tests
