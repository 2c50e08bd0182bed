-- ===== src/Lib.antt =====
-- foundry-capital-markets-router: the JavaScript and TypeScript of the repository.
--
-- The parts, and the files that model them:
--
-- * scripts/bootstrap-repo.mjs, which unpacks the scaffold that its own source embeds.
--   Bootstrap/Args is parseArgs and fail, Bootstrap/Payload is loadPayload, parseFiles and
--   normaliseContent, and Bootstrap/Writer is resolveRoot, safeJoin, exists and main. A run takes
--   the script's path and source, its arguments and a file system (texts by absolute path,
--   directories, executables), and ends with the file system, the three lists of its report and
--   the failure that ended it, if any. `fail` ends the process, so it is the error of a `Result`.
--   node:path is the parameter `PathModule`. What the script prints, and errors of the file
--   system, are not modelled. Safety, Report and Rerun hold the laws.
-- * .squad/templates/ralph-triage.js, which assigns open issues to the members of a team.
--   Triage/Cells is the text of a cell and of a heading, Triage/Tables the tables of team.md and
--   routing.md, Triage/Matching findMember to triageIssue, Triage/Issues the labels, the pages and
--   main, Triage/Remote the command line and the remote's URL. toLowerCase and the URL parser are
--   parameters; GitHub's answers are an argument. The regular expressions are written out as
--   functions on lists of character codes. The page loop runs on fuel: a round for each full page
--   and one more is enough. Best, Members, Labels and Pages hold the laws.
-- * scripts/diagrams, which draws the diagrams of the documents. Diagram/Metrics is the type
--   metrics of diagram-kit.mjs, Diagram/Rng its createRng, Diagram/Geometry its coordinates, sides
--   and arrow routes, Diagram/Scene the class Scene with its ids, elements, base and text,
--   Diagram/Shapes measure, box and group, Diagram/Arrows arrow, header and legend. Of
--   validate.mjs Diagram/Checks is the checks (a), (b) and (c), Diagram/Overlap the check (d)
--   without the clearance of siblings, Diagram/Fits the check (f), and Diagram/Validate the rest
--   and the composition of all, validate and main. Lengths are whole numbers of grains, 2400 to a
--   pixel: for sizes in hundredths of a pixel every length that the kit computes is whole, where
--   the code has doubles. The one place where their rounding shows at once, the number of
--   characters of a line, is computed as doubles are, from the double nearest to the width; a
--   width that has been rounded otherwise on the way is not told apart from it. `byId.get` is read
--   off the elements, since an id is made for one element. Lookup, Links, Drawing, Connecting and
--   Passing hold the proof that drawn scenes pass the checks (a) to (c), and Validate/Accepted
--   what an accepted diagram is sure to be. Diagram/Bounds is bounds, which the class Scene and
--   render-svg.mjs both have, Diagram/Svg the texts and rectangles of render-svg.mjs and its
--   escapes (Svg/Escaping) and Svg/Canvas the frame of the picture; a number's digits are written
--   on fuel, one round more than its value. Diagram/Generator is generate-diagrams.mjs with
--   Generator/Sync for its check; what it renders is an argument there. Diagram/Pictures is what
--   the builders of diagrams.mjs share, as scripts on a scene that throw where JavaScript does,
--   and the modules Platform, RequestFlow, AgentMap, ScreenMap and SourceMap below it are the five
--   builders: Items the contents of their boxes, Layout their coordinates, and the module itself
--   the calls of the scene. A group of a builder's calls is a script of its own.
--   Pictures/Catalogue is DIAGRAMS and render, with the JSON and the SVG of a scene as parameters.
--   Pictures/Rows and Pictures/Stacks are about rows and columns of any boxes, which
--   Pictures/Shown finds in the scene; Pictures/Valid evaluates the five builders and the
--   validator on what they draw, which Rendered and Regenerate compose with the files that are
--   written.
-- * scripts/generate-api-types.mjs, which derives the console's types from C# sources.
--   ApiTypes/Scan is the loop over the matches of a regular expression and the pieces that the
--   expressions share, ApiTypes/Parse parseEnums and parseRecords, ApiTypes/Types mapType and
--   camel, ApiTypes/Emit generate, and ApiTypes/Run readSources and main, with what the source
--   directories hold as an argument. The record Js is what they ask of JavaScript: toLowerCase,
--   and the names that objects inherit, which the lookup of a primitive finds too. mapType runs on
--   fuel, a round for each character and one more: an argument is shorter than the type that it
--   stands in. Parse/Enums, Types/Structure and the modules beside them describe the sources and
--   the types apart from the code, for the laws.
-- * src/webui/src, the console. Webui/Navigation is shell/navigation.ts, Webui/Approvals the rules
--   and the panel of features/approvals, Webui/Async is state/asyncState.ts, its boundary and the
--   mapping of a query, Webui/Requests the requests that api/client.ts sends and Webui/Client what
--   it makes of a response, Webui/OrderRouting the container of screen 10
--   (features/orderrouting/routes.tsx) as a step relation: proposals and executions are asked for
--   and answered in any order, and Webui/Execution the panel beside it that looks up an approval
--   and forwards it (ExecutionPanel.tsx). Webui/Orders is the bodies of order routing,
--   Webui/Ticket the order form (OrderTicket.tsx) as its events, and Webui/RoutingScreen what
--   OrderRoutingScreen.tsx shows of a result and an execution. Webui/Packet is the sections of
--   components/EvidencePacketView.tsx, and Webui/App the routes of App.tsx, with App/Roles and the
--   modules beside it for who is routed where. Times are milliseconds; a date that cannot be read
--   is `none`. Rendering is left out, down to which view, banner, table or disabled button is
--   chosen and what its texts are.
--
-- Prelude has the shared helpers: Boolean tests, lists, strings and maps with texts for keys over
-- the native numbers, and the integers. Strings are lists of character codes. Each part has its
-- tests and examples in modules Tests.
--
-- Not modelled: the services in C#, the infrastructure, the paths of the arrows in an SVG (square
-- roots and angles of floats), and the colours and strokes of the diagrams.
pub mod Prelude
pub mod Diagram
pub mod Bootstrap
pub mod Triage
pub mod ApiTypes
pub mod Webui
