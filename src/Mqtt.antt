-- ===== src/Mqtt.antt =====
-- internal/mqttnotify/publisher.go: detections announced to Home Assistant. The client of the broker is
-- a parameter: a script of its answers. JSON documents are their fields.
pub mod Names
pub mod Cameras
pub mod Publish
mod Tests
