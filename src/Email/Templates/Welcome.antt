-- ===== src/Email/Templates/Welcome.antt =====
-- src/modules/email/templates/welcome.ts, from the end of its styles on.
use vnst_be.Base.{List, [], ◌∷◌, ◌++◌, Option, Text}
use vnst_be.Email.Templates.Pieces.{Piece, lit, hole, render, printed}
use vnst_be.Email.Templates.WelcomeHead.{welcome_head, welcome_styles}

abbrev pub welcome_pieces : Option Text → List Piece
welcome_pieces name =
    lit "</head>\n"
    ∷ lit "<body>\n"
    ∷ lit "<table class=\"body-wrap\" cellpadding=\"0\" cellspacing=\"0\">\n"
    ∷ lit "    <tr>\n"
    ∷ lit "        <td class=\"container\">\n"
    ∷ lit "          <table cellpadding=\"0\" cellspacing=\"0\">\n"
    ∷ lit "            <tr>\n"
    ∷ lit "                <td align=\"center\" class=\"masthead\">\n"
    ∷ lit "                  <div class=\"pos-relative\">\n"
    ∷ lit "                        <span>\n"
    ∷ lit "                            <img class=\"header_img\"\n"
    ∷ lit
        "                                 src=\"https://static.namifutures.com/nami.exchange/images/email/nami-header.jpg\"\n"
    ∷ lit "                                 alt=\"nami-header\" border=\"0\">\n"
    ∷ lit "                        </span>\n"
    ∷ lit "                    </div>\n"
    ∷ lit "                </td>\n"
    ∷ lit "            </tr>\n"
    ∷ lit "            <tr>\n"
    ∷ lit "                <td class=\"content\">\n"
    ∷ lit "                    <div>\n"
    ∷ lit "                        <h1>\n"
    ∷ lit "                            Confirm Your Registration\n"
    ∷ lit "                        </h1>\n"
    ∷ lit "    \n"
    ∷ lit "                        <div style=\"text-align: left\">\n"
    ∷ lit "                            <p>\n"
    ∷ lit "                                Welcome to "
    ∷ hole (printed name)
    ∷ lit "!<br>\n"
    ∷ lit "                                Click the button below to complete verification:\n"
    ∷ lit "                            </p>\n"
    ∷ lit "                            <p>\n"
    ∷ lit "                                <a href=\"{{ verifyUrl }}\" class=\"button\">\n"
    ∷ lit "                                    Confirm\n"
    ∷ lit "                                </a>\n"
    ∷ lit "                            </p>\n"
    ∷ lit "                            <p>\n"
    ∷ lit "                                Security Note: <br>\n"
    ∷ lit "                                * DO NOT give your password to anyone!<br>\n"
    ∷ lit "                                * Enable Google 2FA!<br><br>\n"
    ∷ lit
        "                                If this activity is not your own operation, please contact us immediately.<br>\n"
    ∷ lit
        "                                - Telegram: <a href=\"https://t.me/namitradevn\">https://t.me/namitradevn</a><br>\n"
    ∷ lit
        "                                - English Telegram: <a href=\"https://t.me/namitrade\">https://t.me/namitrade</a><br><br>\n"
    ∷ lit "                                Automated message. Please do not reply!\n"
    ∷ lit "                            </p>\n"
    ∷ lit "                        </div>\n"
    ∷ lit "                    </div>\n"
    ∷ lit "                </td>\n"
    ∷ lit "            </tr>\n"
    ∷ lit "        </table>\n"
    ∷ lit "        <footer>\n"
    ∷ lit "        <div class=\"footer-wrapper\">\n"
    ∷ lit "            <div class=\"icons\">\n"
    ∷ lit "                <a href=\"https://www.facebook.com/nami.trade.official\"><img\n"
    ∷ lit
        "                        src=\"https://static.namifutures.com/nami.exchange/images/email/google-play.png\"\n"
    ∷ lit "                        height=\"40\"\n"
    ∷ lit "                        alt=\"facebook-icon\" border=\"0\" class=\"icon\"></a>\n"
    ∷ lit "                <a href=\"https://twitter.com/NamiTrade\"><img\n"
    ∷ lit
        "                        src=\"https://static.namifutures.com/nami.exchange/images/email/google-play.png\"\n"
    ∷ lit "                        height=\"40\"\n"
    ∷ lit "                        alt=\"twitter-icon\" border=\"0\" class=\"icon\"></a>\n"
    ∷ lit "                <a href=\"https://t.me/namitrade\"><img\n"
    ∷ lit
        "                        src=\"https://static.namifutures.com/nami.exchange/images/email/google-play.png\"\n"
    ∷ lit "                        height=\"40\"\n"
    ∷ lit "                        alt=\"telegram-icon\" border=\"0\" class=\"icon\"></a>\n"
    ∷ lit "            </div>\n"
    ∷ lit "            <div class=\"downloads\">\n"
    ∷ lit
        "                <a href=\"https://play.google.com/store/apps/details?id=com.namicorp.exchange\"><img\n"
    ∷ lit
        "                        src=\"https://static.namifutures.com/nami.exchange/images/email/google-play.png\"\n"
    ∷ lit "                        height=\"40\"\n"
    ∷ lit "                        alt=\"download-on-google-play\" border=\"0\"></a>\n"
    ∷ lit "                <a href=\"https://apps.apple.com/app/id1480302334\"><img\n"
    ∷ lit
        "                        src=\"https://static.namifutures.com/nami.exchange/images/email/app-store.png\"\n"
    ∷ lit "                        height=\"40\"\n"
    ∷ lit "                        alt=\"download-on-app-store\" border=\"0\"></a>\n"
    ∷ lit "            </div>\n"
    ∷ lit "        </div>\n"
    ∷ lit "        <div class=\"links primarycolor\">\n"
    ∷ lit "            <a href=\"https://nami.io/\" class=\"primarycolor\">www.nami.io</a>\n"
    ∷ lit "            <a href=\"https://gmail.com/\" class=\"primarycolor\">support@nami.io</a>\n"
    ∷ lit
        "            <a href=\"https://nami.exchange/privacy\" class=\"primarycolor\">Privacy policy</a>\n"
    ∷ lit "        </div>\n"
    ∷ lit "\n"
    ∷ lit "    </footer>\n"
    ∷ lit "        </td>\n"
    ∷ lit "    </tr>\n"
    ∷ lit "</table>\n"
    ∷ lit "\n"
    ∷ lit "</body>\n"
    ∷ lit "</html>\n"
    ∷ []

unfoldable pub template_welcome : Option Text → Text
template_welcome name = render (welcome_head ++ (welcome_styles ++ welcome_pieces name))
