-- ===== src/Alerting.antt =====
-- internal/alerting: rules, conditions, the state machine of one alert, the rule store, the
-- evaluation engine and the HTTP handlers.
pub mod Types
pub mod Conditions
pub mod Machine
pub mod Store
pub mod Engine
