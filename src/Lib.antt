-- ===== src/Lib.antt =====
-- A model of the trip planner: the travel engine, which turns candidate places into a schedule by
-- rules alone; the planner, a state machine that lets a language model choose which tool runs next;
-- and the trip service, which saves a schedule in the database and edits it there.
--
-- The parts, and how they interact. The planner's graph (src/planner/graph) runs a cycle of two
-- nodes. The agent node asks the language model for the next tool calls, or chooses a default. The
-- executor node runs each call through the registry, which admits a tool only in its phase; merges
-- the result into the state; moves the phase along a locked table; and ends the cycle with the stuck
-- detector. The tools call the travel engine (src/travel_engine): it selects places, allocates them
-- to days, orders each day, times it, and validates the whole. When the cycle ends, one terminal
-- event is chosen from the state. The trip service (src/trips) writes the schedule of the final state
-- into the tables. An edit of a day reads the trip back, lets the travel engine time the new day, and
-- has the whole trip validated before anything is written; a row of the evaluation log is written
-- with it. A trip is bound to a browser session until a user claims it.
--
-- The files. Travel/Rules models src/travel_engine/travel_rules.py; Travel/Places place_selector.py;
-- Travel/Days day_allocator.py; Travel/Routing protocols.py; Travel/Route route_optimizer.py;
-- Travel/Clock and Travel/Schedule schedule_builder.py; Travel/Validator trip_validator.py.
-- Planner/Schemas models src/planner/tools/schemas.py; Planner/State src/planner/graph/state.py;
-- Planner/Orchestration and Planner/Stuck src/planner/tools/orchestration.py; Planner/Registry
-- src/planner/tools/registry.py; Planner/Executor and Planner/Agent the nodes of
-- src/planner/graph/nodes; Planner/Graph src/planner/graph/builder.py, with the limit of steps in
-- src/planner/service.py; Planner/Terminal src/planner/emit_terminals.py; Planner/Tools and
-- Planner/Scheduling the tools in src/planner/tools that call the travel engine alone, and
-- Planner/Replanning those that run them again (reoptimize_routes.py, drop_weakest_stop.py);
-- Core/RateLimit src/core/middleware/rate_limit.py; Core/Cache src/core/cache/backends.py, whose
-- operations are named cache_get and cache_set; Search/PlacesIndex src/search/places_index.py, the
-- search for the places of a destination.
-- Trips models src/trips/models.py and exceptions.py; Trips/Repository src/trips/repository.py, the
-- session under src/core/database/base_repository.py and the log of edits of src/evaluation;
-- Trips/Access, Trips/Days, Trips/Plans, Trips/Edits, Trips/Saving and Trips/Geojson model
-- src/trips/service.py: who may see or claim a trip, the stored days, the changed day, the unit of
-- work of an edit, save_from_state, and the map; Trips/Polyline src/trips/polyline.py.
-- A function keeps the name it has in the source, without a leading underscore; a loop's body and its
-- iteration have names of their own. Below each of these modules stand the modules of its proofs,
-- named for what they prove, and its tests. Prelude has what is shared: tests on numbers, lists,
-- sorting, permutations, results and dictionaries.
--
-- How values are represented. A UUID is a number, a wall-clock text is the list of its characters'
-- codes, a weight or score is a number of tenths (that of a search hit, of millionths) and a
-- distance a number of metres, so that sums and comparisons are exact where the source adds floats.
-- Scores that are equal here may therefore differ in the source, by the rounding of its sums.
-- Float geometry (great-circle distances, centroids, the dispersion of a day) is a parameter. So
-- are the routing service, the language model, the tool functions, the printing of a validation
-- error and the time that a call takes. An exception is none or an error value. A fresh identifier
-- in the database is the next unused number. A session is two copies of the tables, the committed
-- ones and the current ones, and an operation takes it and returns it with a value or an error.
-- Coordinates on a map are whole multiples of 1e-5 degrees, the precision of the polylines; the
-- reading of a float from a stored text is a parameter. The settings are a record with the defaults
-- of src/config.py.
--
-- Fuel. The drop loop of the optimiser recurses on the drops that are left, at most five. The loop
-- of the graph recurses on a number of cycles. 5 * (12 + 1) * 3 = 195 cycles are enough for the
-- default settings. The decoder of polylines recurses on the length of the text, since each turn of
-- its loops reads a character. The digits of a number recurse on the number itself.
--
-- Not modelled. HTTP routers, request and response schemas, LangGraph itself, the database driver,
-- token usage, message texts, streaming and snapshots in events. The tools that search places, the
-- nodes that parse preferences and write the narrative, the paginated lists of trips, the rest of the
-- evaluation log, the writing of the search index, the sparse encoder, the geocoder, places,
-- destinations and the Redis backends are not modelled.
pub mod Prelude
pub mod Travel
pub mod Planner
pub mod Core
pub mod Trips
pub mod Search
