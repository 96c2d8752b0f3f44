-- ===== src/Lib.antt =====
-- qtcontacts-tracker, the Tracker backend of the Qt Mobility contacts API, in parts.
--
-- The plugin's engine turns each request of the API into a request worker. A worker sends SPARQL
-- queries to Tracker, uses resolvers to go from resource IRIs to Tracker ids and back, and reports
-- an error and results. Workers run one after the other as tasks of a queue. A change listener
-- watches Tracker and emits the contact signals. SPARQL text, D-Bus and files are not modelled: a
-- query is known by what it asks or by the ids that it names, and what Tracker answers is a
-- parameter.
--
-- Base: shared names, tests on numbers, lists measured by native numbers, `QHash` as an association
--   list, equality tests as an interface.
-- Request: `QTrackerAbstractRequest` of src/engine/abstractrequest.cpp. Its cancellation lock makes
--   each operation one step, so the histories of Request/Cancel are the interleavings of threads.
-- Queue: `QctQueue` of src/lib/queue.cpp, with the calls into Qt as a list of effects.
-- Cache: `QctResourceCache` of src/lib/resourcecache.cpp.
-- Resolver: `QctTrackerIdResolver` and `QctResourceIriResolver` of src/lib/sparqlresolver.cpp, with
--   `buildResult`'s arithmetic of offsets, and with an index out of range as `none`.
-- Listener: `QctTrackerChangeListener` of src/lib/trackerchangelistener.cpp, each slot a step.
-- Remove: `QTrackerContactRemoveRequest` of src/engine/contactremoverequest.cpp.
-- Relationship: src/engine/relationshipsaverequest.cpp, src/engine/relationshipremoverequest.cpp and
--   src/engine/relationshipfetchrequest.cpp.
-- Presence: `qctUpdateGlobalPresence` of src/lib/presenceutils.cpp.
-- Phone: src/lib/phoneutils.cpp, with Qt's character tables as parameters.
-- Merge: src/engine/contactcopyandremoverequest.cpp, the choice of a sync target and the predicates
--   to insert; the lists are what its queries answer.
-- Label: src/engine/displaylabelgenerator.cpp, with `findDisplayNameGenerators`, `createDisplayLabel`
--   and `normalizedFetchHint` of src/engine/engine.cpp.
-- IdFetch: src/engine/contactidfetchrequest.cpp; the query, the fetch request that emulates sorting
--   and the moment of a cancellation are parameters.
-- Detail: the predicate chains of src/dao/contactdetail.cpp and src/dao/resourceinfo.cpp.
-- Guid: src/engine/guidalgorithm.cpp; the SIM and the system information are parameters.
-- Settings: src/lib/settings.cpp and src/lib/settings_p.h.
-- Filter: the filters of src/dao/scalarquerybuilder.cpp. The calls of bindFilter nest as deep as
--   the filter, which is the fuel; a filter on any field of a detail takes one level more.
-- Save: src/engine/contactsaverequest.cpp. Save/Details has normalizeContact and
--   writebackThumbnails, Save/Run the request; the update of one contact is a parameter.
-- Subject: src/dao/subject.cpp.
-- Engine: src/engine/engine.cpp. Engine/Compatible has compatibleContact, Engine/Avatar the order
--   of avatars.
-- Fetch: src/engine/abstractcontactfetchrequest.cpp, the contacts of a result and the links of details.
-- Unmerge: src/engine/contactunmergerequest.cpp.
-- Sorting: the sort orders of src/dao/scalarquerybuilder.cpp.
-- Dispatch: requests, workers and tasks of src/engine/engine.cpp and src/engine/tasks.cpp.
-- Sync: the synchronous calls of src/engine/engine.cpp, over what becomes of their requests.
-- Update: `UpdateBuilder` of src/engine/contactsaverequest.cpp, its statements with named nodes.
--   Update/Chain has insertDetailField.
-- Definition: the detail definitions of src/engine/engine.cpp, src/dao/contactdetailschema.cpp and
--   src/engine/detaildefinitionfetchrequest.cpp.
-- Parameters: the parameters of an engine and its schemas, of src/engine/engine.cpp and
--   src/dao/contactdetailschema.cpp.
--
-- Fuel: the loops that split a list into queries (`makeQueries`, and the `while` of the removal)
-- have as fuel the length of the list, of which each turn takes at least one element. The calls of
-- `findDisplayNameGenerators` to itself have as fuel their number, and three are enough.
--
-- Not modelled: the text of SPARQL queries, the deletions in the update of a saved contact, the
-- projections and the conditions on one field in src/dao/scalarquerybuilder.cpp, the fields of the
-- details of src/dao/contactdetailschema.cpp, the queries of contact fetches and the parse of their
-- rows, logging, files, D-Bus and the plugin's entry point.
pub mod Base
pub mod Request
pub mod Queue
pub mod Cache
pub mod Resolver
pub mod Listener
pub mod Remove
pub mod Relationship
pub mod Merge
pub mod Presence
pub mod Phone
pub mod Label
pub mod Guid
pub mod Detail
pub mod IdFetch
pub mod Unmerge
pub mod Settings
pub mod Definition
pub mod Dispatch
pub mod Engine
pub mod Fetch
pub mod Filter
pub mod Parameters
pub mod Save
pub mod Sorting
pub mod Subject
pub mod Sync
pub mod Update
