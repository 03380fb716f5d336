-- ===== src/WebSocket.antt =====
-- The WebSocket side of the server: messages (src/wh/whsocketmessage.cpp) and the frames that
-- src/wh/whhttpserver.cpp sends and reads.
pub mod Message
pub mod Frame
pub mod Send
pub mod Receive
