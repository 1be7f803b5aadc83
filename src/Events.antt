-- ===== src/Events.antt =====
-- src/signal_hermes_router/events.py: the envelopes of Signal events.
--
-- An event is a JSON document. Outside of the model, and refused here, are an event of a negative
-- time and an attachment whose id is no string; the name, size and body of an attachment are left
-- out. `decoded` gives the length of `base64.b64decode` of a text, a parameter.
pub mod Fields
pub mod Probe
pub mod Parse
