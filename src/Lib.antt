-- ===== src/Lib.antt =====
-- Webhost: a web server library, a daemon and CGI helpers over Qt.
--
-- The library (src/wh) holds a server, WHHttpServer, that reads requests from its connections,
-- WHHttpConnection, and answers them from three kinds of sources: static files, CGI programs and
-- WebSockets. A source belongs to a realm, and the users of a realm, WHHttpUser, come from a file
-- that is read as a profile, WHProfile. Messages of a WebSocket are WHSocketMessage. A CGI program
-- reads its request and the state of the machine with WHCgiPost, which also sends commands to the
-- daemon (src/webhostd). The daemon takes them from a datagram socket, changes users, addresses and
-- time servers, and keeps the service process running.
--
-- Which file models what:
-- Base: shared names, lists and integers over the native numbers, bit operations.
-- Qt: texts and byte arrays as lists; the interface `Library` of the operations of Qt and OpenSSL
--   that the code calls, a parameter of all that uses it; and `TextLaws`, what Qt documents of some.
-- WebSocket: src/wh/whsocketmessage.cpp (Message); sendSocketMessage and the closing of a socket
--   (Send) and ReadWebsocket (Receive) of src/wh/whhttpserver.cpp; the frames of RFC 6455 as an
--   independent description (Frame).
-- Connection: the state of src/wh/whhttpconnection.h and its setters, statusText (Status) and
--   what the responses write (Response).
-- Profile: src/wh/whprofile.cpp, setSource and the values.
-- Users: src/wh/whhttpuser.cpp and the methods on http_users of src/wh/whhttpserver.cpp; loadUsers
--   and saveUsers (File).
-- Server: the rest of src/wh/whhttpserver.cpp, with the CGI slots of src/wh/whhttpconnection.cpp
--   (Cgi), the answers from the sources (Sources), ProcessRequest (Requests), readyReadData and the
--   handlers behind it (Reading) and the array of connections (Table). Access, Delivery and Phases
--   hold what is proved of them.
-- Config: src/wh/whconfig.cpp. Switches: src/wh/whcmdswitch.cpp.
-- Daemon: readyReadData and ProcessCommand of src/webhostd/webhostd.cpp, and the commands that
--   src/wh/whcgipost.cpp sends (Client, with the wait of sendUpgradeCommand in Upgrade); the
--   commands of src/webhostd/users.cpp (UserFile), of src/webhostd/ip.cpp (Ip) and of ntp.cpp,
--   reboot.cpp, upgrade.cpp and wifi.cpp there (System); the service process with its timers and
--   src/webhostd/restart.cpp (Service), and the constructor of MainObject (Start). World is the
--   machine that the commands find and what they do to it.
-- Post: UrlDecode of src/wh/whcgipost.cpp; the values and LoadUrlEncoding (Form),
--   LoadMultipartEncoding (Multipart), the constructor and the destructor (Request), and ReadIpConfig
--   and the time zones (Host).
-- Pages: the choice of a page in src/wh/whcgiapplication.cpp, over src/wh/whcgiobject.cpp, and the
--   markup of src/wh/whcgipage.cpp (Markup).
-- Maps: std::map with texts as keys. Stdio: fgets and the texts of its lines.
-- Tests: the theorems at concrete inputs, over a concrete `Library`.
--
-- Names are those of the source in another spelling: setProtocolVersion is set_protocol_version. A
-- method that changes an object takes it and gives the new one. What a method calls on Qt's objects
-- (writes and closes of a socket, the start of a process, signals) is appended to the list `calls` of
-- its connection, in order. A handler that reads takes the bytes that the socket has buffered, and
-- gives those that it leaves. Numbers of 32 bits wrap where the source's do.
--
-- The daemon's commands share files with the rest: AddUser2 and DeleteUser2 rewrite the file that
-- loadUsers reads, and Ip and Ntp write files that ReadIpConfig reads. Files and programs outside are
-- parameters; what is done to them is a list of effects, in order.
--
-- The loops on fuel are those of loadUsers, AddUser2 and DeleteUser2, which are given one round more
-- than the profile has sections, of WHConfig::load, one more than it has lines, and of
-- wifiProcessFinishedData, one more than there are processes. The rest is structural recursion.
--
-- Not modelled: output to stderr and syslog, the opening of files, the event loop, and what Qt does
-- with a call; requestReceived and its like as a subclass may replace them; the values of a profile
-- that are floats, times or addresses; a page that is added to an application twice; settings and
-- network queries, which are Qt's and the system's. The locale's encoding is taken to be UTF-8.
pub mod Base
pub mod Qt
pub mod WebSocket
pub mod Config
pub mod Connection
pub mod Profile
pub mod Users
pub mod Server
pub mod Daemon
pub mod Post
pub mod Pages
pub mod Stdio
pub mod Maps
pub mod Switches
pub mod Tests
