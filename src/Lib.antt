-- ===== src/Lib.antt =====
-- A verification library for the JavaScript of Scan_TLS: the interactive HTML report of the scanner
-- (tls_scanner/exports/assets/html/js/report.js) and parts of the web frontend (frontend/src): its
-- texts, API client, session, theme, lists of runs, data table, and the form of the TLS checks.
--
-- The report is one page with its data embedded as JSON. report.js parses the data once and renders
-- chapters from it: each chapter filters and sorts the data by the controls that the reader sets, and
-- hands rows to a common sortable and filterable table. The frontend edits scan profiles; the section
-- `checks.tls` of a profile is written by the functions of tlsChecks.ts. Every answer to a request of
-- `api` goes through the API client; a 401 among them is announced to the session, which signs the
-- user out (uploads, and a fetch that a page makes itself, announce none); a sign-in sets the language
-- and the theme that the user prefers.
--
-- Files, in the order of use:
--   Common       texts (lists of UTF-16 code units), `Set` and `Map` by texts (distinct, group_by),
--                `sort` (sort_by, stable, by a comparator), and lemmas on them
--   Value        the scalars of the data, `String(v)` and `normalize`
--   Locale       what is taken from the browser's locale
--   Numbers      `Number(s)` of texts of digits, points and hyphens
--   Csv          csvHeaders, csvCell, csvContent, safeFilename
--   Report       the objects of the data, as records; Report/Samples is a small report
--   Score        pct, sum, endpointScore, scoreTone, postureTone, postureLabel
--   Hosts        hostKey, groupEndpointsByHost, hostSummary, initEndpoints
--   Table        compareValues, table and its column menus (Table/Menu: openMenu; Table/Header: the
--                header cells and the list of a menu)
--   Findings     initFindings, initExposure
--   Certificates initCertificates, trustTone
--   Charts       horizontalBars, donutCompliance, initSeveritySummary, initKpis, priorityActions
--   Page         the drawer (openEndpoint, closeDrawer) and initNavigation
--   I18n         frontend/src/i18n/index.tsx (detectLocale, setLocale, t); I18n/En, Fr and De are the
--                dictionaries en.ts, fr.ts and de.ts, entry by entry
--   Api          frontend/src/api/client.ts: api (request_of, receive), upload, detailToMessage
--   Theme        frontend/src/theme.ts
--   Session      frontend/src/auth/AuthContext.tsx: a state machine over the backend's answers, which
--                reads them through Api and changes I18n and Theme by the user's preferences
--   Duration     frontend/src/lib/utils.ts: formatDuration
--   Runs         GroupedRuns.tsx and RecentRuns.tsx (frontend/src/components); Runs/Progress is
--                ScanProgress.tsx, with the texts of I18n
--   DataTable    the table of the frontend (frontend/src/components/DataTable.tsx)
--   Json         the objects of a scan profile
--   TlsChecks    tlsChecks.ts, all of it; TlsChecks/Form is the form that uses it
--                (frontend/src/components/TlsChecksPicker.tsx)
-- A parent file holds the definitions of its part (Table/Menu, Table/Header and TlsChecks/Form hold
-- their own), its children the theorems, and its child Examples runs at concrete inputs.
--
-- State is explicit. A chapter is a function from the data and the values of its controls to what it
-- shows; a table is a state (TableState) with a step for each entry of its menus (table_step); the
-- open menu of the page is a state machine over the events of the page (menu_step). A TypeError is
-- `none`. `sort` reads the sign of the comparator only, and NaN as 0, so comparators give an Ordering.
--
-- Bounds: decimal digits are made with the fuel n + 1, which is enough since each step divides by ten.
-- Numbers of the data are naturals; `Number(s)` is the decimal that is written, rounded by a parameter
-- to what a double keeps. `Math.round(a / b)` is rounded to the nearest, halves up.
--
-- Parameters, since their code is not in the repository: localeCompare and toLowerCase (record
-- Locale, with the consistency that ECMAScript asks of a comparison), and the rounding of `Number` and
-- JSON.stringify (`double`, `serialize`), of which nothing is assumed; of the frontend, JSON.parse,
-- JSON.stringify, URLSearchParams, and what the storage accepts.
--
-- Not modelled: the markup of the cards and charts, the browser's events and layout, the clipboard
-- and the download itself, the tables in the drawer; keys of a profile that JavaScript orders as
-- integers, inherited properties, and arrays other than lists of ports; the other React components of
-- the frontend; the Python engine and backend; the vendored Swagger bundle.
pub mod Common
pub mod Value
pub mod Locale
pub mod Numbers
pub mod Csv
pub mod Report
pub mod Score
pub mod Hosts
pub mod Table
pub mod Findings
pub mod Certificates
pub mod Charts
pub mod Page
pub mod DataTable
pub mod I18n
pub mod Api
pub mod Theme
pub mod Session
pub mod Duration
pub mod Runs
pub mod Json
pub mod TlsChecks
