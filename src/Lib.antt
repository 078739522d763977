-- ===== src/Lib.antt =====
-- Verification of the ICT trading command center: the Python service of
-- forex-metals-command-center/services/api/app. Paths below are from that folder.
--
-- The program. A provider delivers raw bars. They are screened, sorted and freed of duplicates
-- into a series of candles of one timeframe with a data quality (services/candles/normalize.py,
-- services/data_quality), and aggregated to higher timeframes (services/timeframes). The
-- structure engine reads the closed candles of a series in order and reports swings, breaks of
-- structure and a state (services/structure), from which the bias of several timeframes follows.
-- Every answer to a user passes the decision gate, which collects the reasons not to trade and
-- enforces the verdict authority (services/market_state/gate.py). From the bias, the swept
-- liquidity and the breaks the setup state machine builds setups candle by candle
-- (services/setup_state/engine.py); a confirmed one gets an entry plan (services/entry/plan.py)
-- and stays blocked for the risk engine, which checks budgets and sizes the position
-- (services/risk/engine.py), for the news gate (services/news/engine.py), and for the decision
-- gate. Confirmed plans are tried on paper: the simulation engine fills and closes a position
-- over closed bars (services/paper/engine.py).
--
-- The files. The files below a component that are not named here hold its lemmas and its tests.
--   Prelude, Samples    shared tests on numbers, lists and integers; sample inputs
--   Domain              domain/enums.py, candle.py, issues.py, decision.py, instrument.py
--   Hours               services/data_quality/market_hours.py
--   Timeframes          services/timeframes/core.py
--   Aggregate           services/timeframes/aggregate.py: `aggregate`; Aggregate/Weekly:
--                       `aggregate_weekly`
--   Quality             services/data_quality/quality.py; Quality/Missed counts the missing bars
--                       without the walk and its limit
--   Candles/Validation  services/data_quality/validation.py
--   Candles/Series      services/candles/normalize.py: `build_series`, whose steps are in
--                       Screen, Duplicates and Gaps beside it; Candles/Unusable lists why a bar
--                       cannot be used
--   Gate                services/market_state/gate.py, with `verdict_authority` of contracts.py
--   Structure/Swings    services/structure/swings.py
--   Structure/Engine    services/structure/engine.py; its report is in Structure/Output, and
--                       Structure/Trend says what a directional state rests on
--   Structure/Analysis  services/structure/analysis.py
--   Paper               services/paper/engine.py; the pending part of `step` is in Paper/Fills
--   Facts               the pools, zones and events of liquidity, PD arrays and no-wick candles
--                       that the setups read: models.py of those services
--   Entry               services/entry/plan.py and models.py
--   Setup               services/setup_state/engine.py: Defs has the states, Known the facts at
--                       a candle, Moves the transitions up to the break, Confirm the entry
--                       models, Advance the transitions after the break and the loop; with
--                       chase.py, targets.py, significance.py
--   News                services/news/engine.py and models.py
--   Risk                services/risk/engine.py and models.py: Budget, Sizing and Assess
--
-- How code and model correspond. A function has the name that it has in the source, without a
-- leading underscore; where a loop or a branch is a definition of its own, its comment names the
-- lines. A class is a record, an enum a data type with the same members; `open` and `none` are
-- reserved, so these are `opening`, `opened`, `absent` and `unlabelled`. A datetime is its number
-- of seconds since the UTC epoch; the model is meant for instants at least a week after it, since
-- its dates stop at the epoch. A price is a whole number of the smallest price unit, signed, and
-- arithmetic is exact where the source computes with floats: a quotient is a fraction, compared
-- by cross-multiplication. In the plans and the risk engine a price counts millionths, the place
-- to which the source rounds, and money counts billionths, which is `EPS`. The texts of setup
-- events are their values, and an index that is -1 is absent. The string of a setup's id is its
-- direction and time. An assertion that fails is `none`, like an exception. A float that a
-- provider delivered may be not finite. An exception is `none`. An f-string is its text and its
-- values. Events and swings are named by positions in place of the times in their strings.
--
-- Parameters. The instrument registry, the configurations and the trading day of an instant are
-- arguments too. The time zone database (`Zone`), the weekly hours and the thresholds that are
-- read from JSON are arguments of the definitions. `Advances`, that there is always a later
-- bucket, is what the walks over New York buckets rely on of the time zone database. The verdict
-- authority is the string that the spec holds, or the override of the environment; `str.strip`
-- and `str.upper` are those of ASCII text. Of the execution timeframe the setups read only the
-- duration, which it is taken to have (the source raises a ValueError for MN1).
--
-- Fuel. `slots` and `days_from` walk from bucket to bucket. Each round moves the cursor to a
-- later instant, so a fuel of more than the number of instants up to the end is enough; they
-- answer `none` when it runs out. All other loops are structural recursion.
--
-- Not modelled: the views of a setup (snapshot, steps, next_required_event), bias.py, po3.py and
-- funnel.py beside its engine, the amounts of a risk assessment that are only shown, the views of
-- single news events; the engines that find liquidity pools, PD arrays and no-wick candles, whose
-- results are the inputs of the setups; journal, alerts, backtest, replay, sessions, macro,
-- scoring, scanner, reversal and analytics services, which build on these parts; the services
-- that only load and store; the web application; quotes (`validate_quote`, `compare_providers`);
-- `merged_events`, which sorts by strings.
pub mod Prelude
pub mod Domain
pub mod Hours
pub mod Timeframes
pub mod Quality
pub mod Candles
pub mod Aggregate
pub mod Facts
pub mod Entry
pub mod Setup
pub mod Risk
pub mod News
pub mod Gate
pub mod Structure
pub mod Paper
pub mod Samples
