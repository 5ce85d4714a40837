-- ===== src/Parser/Sip.antt =====
-- plugins/parser/sip/sip.go: the messages, their SDP bodies, and the calls that the parser tracks.
pub mod Sdp
pub mod Message
pub mod Session
pub mod Flows
pub mod Calls
pub mod Headers
pub mod Media
pub mod Printing
