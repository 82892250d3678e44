-- ===== src/Lib.antt =====
-- Next-DBM, the web client of a database manager: a model of the logic of its SQL editor, and theorems
-- about it.
--
-- The program. The page web/src/components/sqleditor keeps its state in one React context,
-- components/Utils/visibilityProvider.js. A user opens tabs on database assets; each asset has a
-- WebSocket to the server, which webSocketManager.js opens, pings and closes. What the user does is
-- turned into SQL by SQLConverter/mysql.js, chosen by getSQLConverter, and sent over the socket as a
-- message; answers come back in pieces, are joined, and fill the tree of objects and the tabs. Outside
-- the editor, a form takes weekly schedules with a grid of half-hour slots, dd/drag-weektime.
--
-- Files and code. Paths that begin with Utils, TabBoxPanel or TableTreePanel are below
-- web/src/components/sqleditor/components.
--   Base       shared helpers: Boolean tests, lists and options over the native numbers, texts, maps.
--   WeekTime   web/src/dd/drag-weektime/DragWeekTime.js. Date, Label: formatDate and formatWeekTime;
--              Grid.Cells: the data and splicing; Grid.Handlers: the handlers of the mouse and links,
--              selectWeek, dealTimePeriod; Grid.Periods: renderWeekTime and renderTimePeriod.
--   Tabs       web/src/components/sqleditor/components/Utils/visibilityProvider.js (addTab, removeTab,
--              getTabByID, the setters) and TabBoxPanel/index.js (onChange, onEdit, onDragEnd,
--              handlePrev, handleNext). Steps: sessions of a user and of a server.
--   Socket     Utils/webSocketManager.js, web/src/components/access/Message.js, and webSocketOnData of
--              visibilityProvider.js. State: sockets, timers and the three maps;
--              Connection: init, onmessage, closeConnection, sendData, writeCommand; Incoming:
--              webSocketOnData. Steps: runs of user, server and browser.
--   Mysql      Utils/SQLConverter/mysql.js. Values and Rows: deleteRow, insertRow, updateRow,
--              with numbers as Doubles prints them;
--              AlterTable: parseDDL, generateAlterStatements, alterTable; Table and CreateTable:
--              createTable; Statements and Columns: the converters that fill one template. Reader,
--              Diff.Run and Diff.Execute say what MySQL makes of the texts, for ALTER TABLE as far as
--              the names of columns go, and are no code of the repository.
--   Results    getTableRsesultFormat and the answer tableRsesult of visibilityProvider.js.
--   Designer   TabBoxPanel/DesignerPanel/components: FieldPanel.js, IndexPanel.js, ForeignKeyPanel.js and
--              TriggerPanel.js. Defs.Rows: rows, objects with a key and entries, and the lists the panels
--              keep; Defs.Editing, Defs.Panels: the handlers; Defs.Adding: handleAdd of DesignerPanel/
--              index.js. Session: runs of a user's events. Saving: the edited rows before alterTable.
--   Grid       TabBoxPanel/components/Table.js and Editable.js, with the deleteRow, insertRow and
--              updateRow of Mysql that they call. Steps: runs of a user's events.
--   Answers    what KeyValueJsonResult, the answers that fill menus of the tree and executeResult do in
--              visibilityProvider.js. KeyValue: the effects of one answer; Menu: children of menus.
--   Explorer   TableTreePanel/TableDrawer/DataTree.js, the panel of objects. Defs.Search: filterNodes and
--              getAllKeys; Defs.State: the state, and what it asks of other parts, as a list of calls;
--              Defs.Opening: onSelect and onExpand; Defs.Menus, Defs.Objects: the entries of the
--              menus. Listing and Dropping put the requests together with Dispatch and the answers with Answers.
--   Runs       the Buttons.js of TabBoxPanel/DesignerPanel, ViewPanel, FunctionPanel, ProcedurePanel,
--              SQLFilterPanel and SQLEditorPanel. Format and Editor: what the editor sends; Created: a new object,
--              from Explorer over Tabs and its button to Answers.
--   Compare    TabBoxPanel/SQLDiffEditorPanel, Buttons.js and FilterSelect.js: the choice of tables, and
--              their statements side by side. Sides: the requests with the answers; Loading: loadData.
--   Dispatch   getSQLConverter of visibilityProvider.js.
--   Tree       the functions on tree nodes of visibilityProvider.js, and findNodeByKey of Utils/index.js.
--   Utils      small functions of web/src/utils, web/src/common/eventBus.js and Utils/index.js. Clock and
--              Durations: the times of web/src/utils/times.js, strings.js and utils.js.
--
-- How the code is rendered. A function of JavaScript is a function by clauses; the state of a component
-- is a record that is passed on; code that throws gives none, or an error value. A string is the list of
-- its UTF-16 units. A read out of range is none; where the code then reads a field, it throws. React
-- state is set at once; a closure that holds an older state, as in the answer to sqlsGetId, carries it.
-- Objects that are replaced field by field are values; that setters of a tab write into shared objects is
-- not followed, nor is the second copy of the tree that updateTreeNodeByKey and deleteTreeNodeByKey write
-- into. Sockets and timers are numbered, since the maps share them. Keys of objects are in the order of
-- their insertion: column names that are whole numbers, which JavaScript puts first, and names of the
-- prototype of Object are left out.
--
-- Numbers. Number(text) is modelled on integers in decimal, of any size: the double next to it, printed
-- with the fewest digits that read back as it. Any other text is taken to be NaN. Dates are computed in
-- whole half hours east of UTC. Decimal digits are written on fuel n + 1, enough because n / 10 is below
-- n; the loop of zeroPad runs on fuel minLength + 1, which is enough, as is proved. A number of d digits
-- is halved on fuel 4 * d, as it has no more bits, and loses its last digits on fuel d. The loop over the
-- tabs of a comparison counts down from their number, since its body writes into tabs that are still to
-- come. Every other recursion is on the structure of its data.
--
-- Parameters. arrayMove of the package @dnd-kit/sortable, of which it is asked only that it permutes;
-- toLowerCase; the validation of the antd forms and the rows that the antd table has selected;
-- the server, whose answers are steps; the clock, as a text or a number; the JSON parser, as a function,
-- and the JSON of sendData; the function that setGetSQLConverter is given; the result of
-- parseCreateTableSql.
--
-- Not modelled. The components of React beyond the handlers named above, styles and translations; the
-- regular expressions of parseCreateTableSql; the server in Go; the other pages of the client, which are
-- forms and tables over the API; the dictionaries of types and keywords, which are data; of the designer
-- and the grid, imports and exports of files, titles and widths of columns, and the panels of options,
-- remarks and checks; of the panel of objects, exports and imports, dialogs and notes.
pub mod Answers
pub mod Base
pub mod Compare
pub mod Designer
pub mod Dispatch
pub mod Explorer
pub mod Grid
pub mod Mysql
pub mod Results
pub mod Runs
pub mod Socket
pub mod Tabs
pub mod Tree
pub mod Utils
pub mod WeekTime
